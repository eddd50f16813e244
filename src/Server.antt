-- ===== src/Server.antt =====
-- src/server.py: what the routes share. The web framework, the clock and `unison_common` are
-- parameters; a request whose handler itself raises is answered by the framework with 500.
pub mod Routes
pub mod Handlers
pub mod Bodies
pub mod Admission
pub mod Failures
pub mod Unlogged
pub mod Counted
pub mod Open
pub mod Readiness
use unison_capabilities.Base.{
  ℕ, suc, ◌+◌, String, Bool, true, false, not, ◌&&◌, Option, none, some, List, [], ◌∷◌, ◌==◌,
  if◌then◌else◌,
}
use unison_capabilities.Base.Dict
use unison_capabilities.Base.Dict.{Dict}
use unison_capabilities.Value.{Number, decimal, Value, Fields, end, obj}
use unison_capabilities.Error.{
  Error, Result, ok, err, not_found_error, manifest_error, policy_error, install_error, run_error,
  python_error, message, raise_if,
}
use unison_capabilities.Exec.{Exec, modify}
use unison_capabilities.Discovery.{Hashing}
use unison_capabilities.Audit.{AuditEmitter, AuditEvent, Line, emit}
use unison_capabilities.Store.{File, CapabilityStore}
use unison_capabilities.Security.{
  Response, reply, http_error, AuthConfig, AuthzConfig, Credentials, TokenService,
}
use unison_capabilities.Resolver.{Setup}
use unison_capabilities.Resolver.Run.{Engine, Service}
use unison_capabilities.Oauth.{OauthManager, Onboarding}

-- `_metrics`, `_latency_sum` and `_latency_count`
pub record Metrics : Type 0 where
  pub requests : Dict ℕ
  pub latency_sum : Dict Number
  pub latency_count : Dict ℕ

-- Everything that a request can change.
pub record App (World : Type 0) : Type 0 where
  pub service : Service World
  pub secrets : File
  pub sessions : File
  pub log : List Line
  pub metrics : Metrics

-- What the application is built with, and the parameters.
pub record Api (World : Type 0) : Type 0 where
  pub unsafe_allow_nonlocal : Bool
  pub tokens : Option TokenService
  pub environment : Option String
  pub auth : AuthConfig
  pub authz : AuthzConfig
  pub setup : Setup
  pub engine : Engine (CapabilityStore × World)
  pub allow_legacy : Option String
  pub audit : AuditEmitter
  -- `FileFernetSecretsBackend.from_env` returns or raises
  pub secrets_key : Result (Unit {0})
  pub oauth : OauthManager
  -- `bind_identity` for the request's principal, if `unison_common` has it
  pub bind_identity : Option (Fields → Result Fields)
  -- the sum of floats
  pub add : Number → Number → Number

-- What is known of one request beside its route: the peer, the bearer token, its id, the instant,
-- how long it took, and the fresh identifier that it may use.
pub record Call : Type 0 where
  pub client : Option String
  pub credentials : Option Credentials
  pub request_id : Option String
  pub now : ℕ
  pub seconds : Number
  pub uuid : String

-- `create_app` refuses to switch the authentication off without the flag.
unfoldable pub require_auth : AuthConfig → Result (Unit {0})
require_auth auth =
    raise_if (auth.mode == "disabled" && not auth.unsafe_allow_no_auth)
      (python_error "RuntimeError")

unfoldable pub http_error_of : {A : Type 0} → Error → Response A
http_error_of (not_found_error s) = http_error 404 s
http_error_of (manifest_error s) = http_error 400 s
http_error_of (policy_error s) = http_error 400 s
http_error_of (install_error s) = http_error 400 s
http_error_of (run_error s) = http_error 500 s
http_error_of (python_error s) = http_error 500 s

abbrev count_of : Option ℕ → ℕ
count_of none = 0
count_of (some n) = n

-- one more under the name
unfoldable pub count_in : String → Dict ℕ → Dict ℕ
count_in name d = Dict.insert name (count_of (Dict.lookup name d) + 1) d

abbrev sum_of : Option Number → Number
sum_of none = decimal false 0 0
sum_of (some x) = x

-- A handler's answer, and the state after it.
abbrev pub Handled : Type 0 → Type 0
Handled World = Response Value × App World

module _ {World : Type 0} where
  -- `_metric`
  unfoldable pub metric : String → App World → App World
  metric name s = record s {
    metrics = record s.metrics { requests = count_in name s.metrics.requests };
  }

  -- `_observe`
  unfoldable pub observe : Api World → String → Number → App World → App World
  observe api name seconds s = record s {
    metrics = record s.metrics {
      latency_sum =
          Dict.insert name (api.add (sum_of (Dict.lookup name s.metrics.latency_sum)) seconds)
            s.metrics.latency_sum;
      latency_count = count_in name s.metrics.latency_count;
    };
  }

  unfoldable pub log_line : ⦃hash : Hashing⦄ → Api World → AuditEvent → App World → App World
  log_line api event s = record s { log = emit api.audit event s.log }

  abbrev pub onboarding_of : App World → Onboarding
  onboarding_of s = record {
    store = s.service.store;
    secrets = s.secrets;
    sessions = s.sessions;
    log = s.log;
  }

  -- The calls of the components, on their parts of the state.
  module _ {A : Type 0} where
    abbrev pub on_service : Exec (Service World) A → Exec (App World) A
    on_service m s = let (r, service) = m s.service in (r, record s { service = service })

    abbrev pub on_store : Exec CapabilityStore A → Exec (App World) A
    on_store m s =
        let (r, store) = m s.service.store in
        (r, record s { service = record s.service { store = store } })

    abbrev pub on_oauth : Exec Onboarding A → Exec (App World) A
    on_oauth m s =
        let (r, t) = m (onboarding_of s) in
        (
          r,
          record s {
            service = record s.service { store = t.store };
            secrets = t.secrets;
            sessions = t.sessions;
            log = t.log;
          },
        )

  abbrev pub audited : ⦃hash : Hashing⦄ → Api World → AuditEvent → Exec (App World) (Unit {0})
  audited api event = modify (log_line api event)

  -- the event of the `except` block, which may raise itself
  abbrev pub failed :
      ⦃hash : Hashing⦄ → Api World → Error → Result AuditEvent → App World → Handled World
  failed api e (ok event) s = (http_error_of e, log_line api event s)
  failed api e (err raised) s = (http_error 500 "Internal Server Error", s)

  abbrev pub answered :
      ⦃hash : Hashing⦄
      → Api World
      → (Error → Result AuditEvent)
      → Result Value
      → App World
      → Handled World
  answered api on_error (ok v) s = (reply v, s)
  answered api on_error (err e) s = failed api e (on_error e) s

  -- `try: … except Exception as exc: audit.emit(…); raise _http_error(exc)`
  unfoldable pub guarded :
      ⦃hash : Hashing⦄
      → Api World
      → (Error → Result AuditEvent)
      → Exec (App World) Value
      → App World
      → Handled World
  guarded api on_error body s = let (r, s') = body s in answered api on_error r s'

  -- `finally: _observe(…)`
  abbrev pub timed : Api World → String → Number → Handled World → Handled World
  timed api name seconds (r, s) = (r, observe api name seconds s)
