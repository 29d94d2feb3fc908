-- ===== src/Manager/Calls.antt =====
-- The forms in which every operation of the manager builds its calls.
use code_vald_org.Prelude.{ℕ, ◌+◌, ◌-◌, suc, String, ◌==◌, if◌then◌else◌}
use code_vald_org.Prelude.Int.{ℤ, pos, negsuc}
use code_vald_org.Errors.{sentinel, temporarily_unavailable}
use code_vald_org.Graph.{
  str, Properties, insert, Relationship, EntityFilter, CreateEntityRequest, RelationshipFilter,
}
use code_vald_org.Effects.{Env, Action, pure, or_fail, lift, ◌>>=◌, calls}
use code_vald_org.Models.{ManagerConfig}

-- `if err != nil { return …, ErrTemporarilyUnavailable }`
unfoldable pub or_unavailable : {W A : Type 0} → Action W A → Action W A
or_unavailable m = or_fail m (sentinel temporarily_unavailable)

-- `if v != "" { props[key] = v }`
abbrev pub set_unless_empty : String → String → Properties → Properties
set_unless_empty key v props = if v == "" then props else insert key (str v) props

-- `t.Add(d)`
abbrev pub add_duration : ℕ → ℤ → ℕ
add_duration t (pos n) = t + n
add_duration t (negsuc n) = t - suc n

module _ (cfg : ManagerConfig) where
  abbrev pub query : String → Properties → EntityFilter
  query type_id props = record { agency_id = cfg.agency_id; type_id = type_id; properties = props }

  abbrev pub draft : String → Properties → CreateEntityRequest
  draft type_id props = record { agency_id = cfg.agency_id; type_id = type_id; properties = props }

  abbrev pub edge : String → (from_id to_id : String) → Relationship
  edge name from_id to_id = record {
    agency_id = cfg.agency_id;
    name = name;
    from_id = from_id;
    to_id = to_id;
  }

  abbrev pub edges_to : String → String → RelationshipFilter
  edges_to name to_id = record {
    agency_id = cfg.agency_id;
    name = name;
    from_id = "";
    to_id = to_id;
  }

  abbrev pub edges_from : String → String → RelationshipFilter
  edges_from name from_id = record {
    agency_id = cfg.agency_id;
    name = name;
    from_id = from_id;
    to_id = "";
  }

-- `m.clock.Now().UTC().Format("2006-01-02T15:04:05Z")`
unfoldable pub now_text : (E : Env) → Action E.World String
now_text E = lift E.now >>= λ t. pure (E.format_time t)

-- Opens the forms above and those of the monad.
unfoldable pub manager_calls : Unit {0}
unfolding calls or_unavailable now_text
manager_calls = tt
