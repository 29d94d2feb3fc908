-- ===== src/Lib.antt =====
-- CodeValdOrg: the organization service. It keeps an agency's Organization, its users,
-- invitations, roles, scopes, memberships, OAuth clients and token revocations as entities of a
-- graph, which a shared library stores, and offers them over gRPC. At the start the configuration
-- is read from the environment (internal/config), the backend is opened (storage/arangodb) and
-- seeded with the schema (schema.go), the routes are announced to Cross (internal/registrar), and
-- gRPC and HTTP (internal/httphandler) are served on one listener (internal/app). A call passes
-- the agency check of the server (internal/server/server.go), goes to the manager (manager.go and
-- the files beside it), which reads and writes the graph through the DataManager, and comes back
-- as a message or as a gRPC status (internal/server/mappers.go).
--
-- Files:
-- - Errors: errors.go.
-- - Models, Models/Requests: models.go. A time is the number of nanoseconds since Go's zero time,
--   a duration a number of nanoseconds.
-- - Helpers: helpers.go. Crypto: crypto.go, with the decoding of base64 in Crypto/Base64 and
--   verifyArgon2id in Crypto/Phc; Crypto/Decoded, Crypto/Scanned and Crypto/Verified have the
--   proofs.
-- - Schema: schema.go, with the types in Schema/Identity, Schema/OAuth and Schema/Artifacts.
--   Schema/Conformance says what the schema declares of a write, Schema/Recording puts a record
--   of the writes that are asked for in front of any environment, and Schema/Writes,
--   Schema/Plain, Schema/TokenWrites, Schema/Histories and Schema/Reads have the proofs.
-- - Configuration: internal/config/config.go, with fmt.Sscanf in Configuration/Scan and the
--   functions of strings in Configuration/Text; Configuration/Dev: cmd/dev/main.go.
--   Configuration/Bounds, Configuration/Exit and Configuration/Numbers have the proofs.
-- - Registrar: internal/registrar/registrar.go; Registrar/Methods: the names of the methods in
--   proto/codevaldorg/v1/org.proto; Registrar/Routes and Registrar/ReadOnly have the proofs.
-- - HttpHandler: internal/httphandler/httphandler.go, with the proofs in HttpHandler/Patterns and
--   HttpHandler/Endpoints. ServeMux: what that code uses of net/http, as a parameter.
-- - Storage: storage/arangodb/arangodb.go. App: internal/app/app.go, with the proofs in
--   App/Startup.
-- - Graph: the entities, edges and filters of the entity graph; Graph/State: what a filter
--   selects and what a write does, for a graph that is a list of entities and a list of edges.
-- - Effects: the calls that the service makes of others (the DataManager, the clock, the random
--   source, hashing, the layout of times), as the record Env of parameters, and the monad of
--   calls.
-- - Manager/Organizations, Manager/Users, Manager/Invitations: org_lifecycle.go. Manager/Roles,
--   Manager/Scopes: roles_scopes.go, with the regular expression of scope names in
--   Manager/Scopes/Grammar. Manager/Memberships: memberships.go. Manager/Clients:
--   oauth_clients.go. Manager/Tokens: token_ops.go. Manager/Calls: the forms that all share.
--   Manager/Operations: the interface of manager.go as data.
-- - Server/Requests, Server/Messages: the messages of proto/codevaldorg/v1/org.proto.
--   Server/Convert, Server/Reply, Server/Organizations, Server/Users, Server/Access,
--   Server/OAuth: internal/server/server.go. Server/Mappers: internal/server/mappers.go.
--   Server/Service: the methods as data.
-- - Graph/Step is the specification of the service: the writes that it may do to the graph.
--   Graph/Sound and Graph/Builtin have the invariants of these steps; Refinement sets the
--   operations against these steps, and Behaviour is about single operations.
-- - Store/Lawful states what is assumed of the DataManager; Store/Keeps, Store/From and
--   Store/Preserves have the rules by which the operations are checked; Store/Reliable states of
--   a store that its listings succeed, and so do its lookups of an entity that is there and its
--   patches of one that the schema allows (its type is not immutable and declares the
--   properties), and has the rules for calls that return a value; Store/Memory is an environment
--   in memory that meets the assumptions, on which Tests run.
--
-- A call returns its result beside the world that it leaves, so that a failure keeps the writes
-- before it. Methods of the Go source become functions of the same name in snake_case, which take
-- the environment and the configuration first. Loops are recursions on their lists; the printing
-- of a number n takes n + 1 as fuel, and needs no more than it has digits. A function of the Go
-- library that the code calls is written out where the library's text fixes it (regexp, strings,
-- fmt, base64); texts are sequences of Unicode characters.
--
-- Assumed of the DataManager (the record IsLawful), by the results on what a call returns or
-- leaves in the graph: a listing returns what the filter selects; a lookup by id returns an
-- entity of that id; a creation takes an id that is not in use; an update patches the properties
-- that are given; a deletion removes from the live graph; a call that fails writes nothing; and
-- the clock, the random source and the uuids leave the graph alone. One call runs at a time: two
-- overlapping calls are not modelled.
--
-- Of the other packages: ServeMux registers different patterns that are literal (no wildcard, no
-- escape, clean) without a panic and routes a literal path to the pattern that is equal to it
-- (ServeMux), Argon2 returns as many bytes as it is asked for, the random source returns bytes
-- (Crypto/Verified), EnvOrDefault returns the variable where it is not empty and the default
-- otherwise (App/Startup), and an iteration over a map takes each key (Configuration/Bounds).
--
-- Not modelled: generated code; the goroutines that serve, the signal and the shutdown
-- (internal/app), which are processes and sockets and stand as one parameter; the structs
-- PasswordCredential and AuthorizationCode of models.go, which no code uses. The context argument
-- and logging are left out.
pub mod Prelude
pub mod Errors
pub mod Graph
pub mod Effects
pub mod Store
pub mod Models
pub mod Helpers
pub mod Crypto
pub mod Manager
pub mod Refinement
pub mod Server
pub mod Behaviour
pub mod Tests
pub mod Schema
pub mod Configuration
pub mod Registrar
pub mod HttpHandler
pub mod ServeMux
pub mod Storage
pub mod App
