-- ===== src/Lib.antt =====
-- The capability resolver service of this repository: a catalog of capabilities (tools, described
-- by JSON manifests) that a planner searches, installs and runs under a policy.
--
-- How the program's parts stand together, and which file models which:
-- * src/resolver.py is the facade. `list`, `get`, `remove`, `search` and `resolve` are in Resolver,
--   `install` in Resolver/Accept (which manifest is taken) and Resolver/Install (what is written),
--   `run` in Resolver/Run. A method holds the file lock while it reads or writes the store, so it is
--   one step on the store.
-- * src/store.py keeps a base and a local catalog and the installed artifacts: Store and
--   Store/Artifacts, over one record `CapabilityStore`. A JSON file is absent, broken or a value.
-- * src/installer.py stages a manifest and promotes it: Installer, with a disk that may raise at
--   any step and may leave a part of the stage behind.
-- * src/policy.py, src/governance.py, src/egress.py and src/schema.py are the guards: Policy,
--   Governance, Egress and Schema.
-- * src/execution.py runs a manifest's implementation: Execution, which is the engine that
--   Resolver/Run takes as an interface. Processes, callables and requests act on any world, and in
--   the service on the store as well: a tool may write below the store's directory. The files of
--   secrets and sessions, the log and the counters are kept apart from it.
-- * src/discovery.py lists scored candidates: Discovery, and Discovery/Mcp for the MCP registries.
--   A score is counted in quarters, as a difference of two naturals.
-- * src/security.py says who may call the service: Security.
-- * src/credential_secrets.py keeps secrets in an encrypted file: Secrets.
-- * src/oauth.py turns a connector on: Oauth, Oauth/Start and Oauth/Complete, over the store, the
--   secrets, the file of sessions and the log of src/audit.py (Audit).
-- * src/server.py puts it together: Server has what the routes share, Server/Routes the routes with
--   their tiers and the events of their failures, Server/Handlers what each does and how a request
--   is served. One request is one step on the whole state. The open routes, which only report, are in
--   Server/Open.
-- * src/config.py reads the configuration: Config. Its sections are what Server, Security and Egress
--   are built with.
-- * src/locks.py and src/atomic.py are below all of them: Locks is a relation of steps of any number
--   of uses of a lock, each with the calls it has yet to make; Atomic is a write with a disk that may
--   raise at any step. Nothing in the lock keeps a use from writing outside a section, and `complete`
--   of src/oauth.py does; Locks/Isolation says of which uses a method that holds the lock is one step
--   in Resolver and Secrets.
-- * src/semantic_targets.py and src/ecosystem.py stand alone: Targets, Ecosystem and, for the
--   signatures, Ecosystem/Signatures.
-- * src/seed_tools.py has tools of the base catalog that touch the host: Tools and Tools/Processes.
-- * src/errors.py is Error; Value has the values of JSON and what Python does with them; Exec has
--   the methods that change a state and may raise, where what was written before a raise stays.
-- * Base has what all share: tests, strings, dictionaries. Tests holds runs on concrete inputs.
--
-- What stands outside src/ is a parameter: conversions of Python that are not spelled out (`repr`,
-- `float` of a string, `datetime.fromisoformat`), the JSON schema validator, `urlparse` and
-- `ipaddress`, `json.dumps` with SHA-256, the HMAC, Ed25519, Fernet, the token library, the HTTP
-- client, the files and directories of the host, the parsed YAML file, the clock with the sum and
-- the order of floats, what `flock` grants and the web framework.
-- Case is changed for the ASCII letters, and a set is a list of which only membership is read. No
-- function runs on fuel: every loop is over a list.
--
-- Not modelled: the tools that only report facts of the host, the skill packs, the demo script, the
-- environment of the store, the secrets and the resolver, an element of the configured roles and
-- services that is no string, and `_builtin_catalog`, which nothing calls.
pub mod Base
pub mod Tools
pub mod Server
pub mod Audit
pub mod Oauth
pub mod Locks
pub mod Atomic
pub mod Config
pub mod Value
pub mod Error
pub mod Exec
pub mod Schema
pub mod Store
pub mod Installer
pub mod Security
pub mod Targets
pub mod Ecosystem
pub mod Resolver
pub mod Discovery
pub mod Egress
pub mod Policy
pub mod Governance
pub mod Secrets
pub mod Execution
pub mod Tests
