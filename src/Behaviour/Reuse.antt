-- ===== src/Behaviour/Reuse.antt =====
-- org_lifecycle.go: an invitation is accepted once.
use code_vald_org.Prelude.{String}
use code_vald_org.Graph.{Entity}
use code_vald_org.Graph.State.{Graph, Occurs}
use code_vald_org.Helpers.{prop_str}

-- The status that an entity is stored with.
abbrev status_of_entity : Entity → String
status_of_entity e = prop_str e.properties "status"
