-- ===== src/Oauth.antt =====
-- src/oauth.py: the device flow that turns a connector on. The HTTP client, the environment and the
-- clock are parameters; the calls of the store and of the file of sessions hold no lock.
pub mod Start
pub mod Complete
pub mod Steps
pub mod Answers
pub mod Enabled
pub mod Started
use unison_capabilities.Base.{
  ℕ, String, ◌<>◌, Bool, true, false, not, ◌||◌, Option, none, some, List, [], ◌∷◌, ◌==◌, leb,
  starts_with, ends_with, if◌then◌else◌,
}
use unison_capabilities.Base.Dict
use unison_capabilities.Base.Dict.{Dict}
use unison_capabilities.Value.{
  Number, decimal, Value, Fields, end, field, obj, str, num, get, put, entries, of_entries, Python,
  text_or_empty, to_text, to_int, truthy, is_true,
}
use unison_capabilities.Error.{
  Error, Result, ok, err, policy_error, run_error, python_error, raise_if, ◌>>=◌, ◌>>◌,
}
use unison_capabilities.Exec.{Exec, modify}
use unison_capabilities.Schema.{Validator}
use unison_capabilities.Egress.{Network, EgressConfig, request}
use unison_capabilities.Discovery.{Hashing}
use unison_capabilities.Store.{File, absent, broken, holds, CapabilityStore, merged_catalog}
use unison_capabilities.Secrets.{Cipher, put_secret}
use unison_capabilities.Audit.{AuditEmitter, AuditEvent, Line, emit}

-- A POST with its form, and what is read of the answer.
pub record Post : Type 0 where
  pub url : String
  pub form : Fields

pub record Answer : Type 0 where
  pub status_code : ℕ
  pub raise_for_status : Result (Unit {0})
  pub json : Result Value

-- `time.time()`, and the sum and the order of floats.
pub record Clock : Type 0 where
  pub time : Number
  pub add : Number → Number → Number
  pub is_after : Number → Number → Bool

pub record OauthManager : Type 0 where
  pub getenv : String → Option String
  pub egress : EgressConfig
  pub send : Post → Result Answer
  pub clock : Clock
  pub audit : AuditEmitter

-- The store, the file of secrets, the file of sessions and the audit log.
pub record Onboarding : Type 0 where
  pub store : CapabilityStore
  pub secrets : File
  pub sessions : File
  pub log : List Line

module _ {A : Type 0} where
  abbrev pub on_store : Exec CapabilityStore A → Exec Onboarding A
  on_store m s = let (r, store) = m s.store in (r, record s { store = store })

  abbrev pub on_secrets : Exec File A → Exec Onboarding A
  on_secrets m s = let (r, file) = m s.secrets in (r, record s { secrets = file })

unfoldable pub require_https : ⦃net : Network⦄ → String → Result (Unit {0})
require_https ⦃net = net⦄ url = net.urlparse url >>= λ parts.
    raise_if (not (parts.scheme == "https")) (policy_error "oauth endpoints must be https")

-- what `_load_sessions` makes of the file
unfoldable pub sessions_in : File → Result (Dict Value)
sessions_in absent = ok []
sessions_in broken = err (python_error "JSONDecodeError")
sessions_in (holds (obj raw)) = ok (entries raw)
sessions_in (holds v) = ok []

unfoldable pub write_sessions : Dict Value → Exec Onboarding (Unit {0})
write_sessions sessions = modify (λ s. record s { sessions = holds (obj (of_entries sessions)) })

unfoldable pub provider_for_capability : String → Result String
provider_for_capability capability_id =
    if starts_with capability_id "connector.google."
    then ok "google"
    else if starts_with capability_id "connector.microsoft."
    then ok "microsoft"
    else err (policy_error "capability is not an OAuth connector")

unfoldable pub scopes_for_capability : String → String → Result String
scopes_for_capability capability_id provider =
    if provider == "google"
    then ok (
        if ends_with capability_id ".calendar"
        then "https://www.googleapis.com/auth/calendar.readonly"
        else if ends_with capability_id ".email"
        then "https://www.googleapis.com/auth/gmail.readonly"
        else "openid email")
    else if provider == "microsoft"
    then ok (
        if ends_with capability_id ".calendar"
        then "offline_access Calendars.Read"
        else if ends_with capability_id ".email"
        then "offline_access Mail.Read"
        else "offline_access User.Read")
    else err (policy_error "unknown oauth provider")

abbrev pub required_client_id : String → Option String → Result String
required_client_id provider none =
    err (policy_error ("missing oauth client id for provider: " <> provider))
required_client_id provider (some v) =
    if v == ""
    then err (policy_error ("missing oauth client id for provider: " <> provider))
    else ok v

unfoldable pub client_id_of : (String → Option String) → String → Result String
client_id_of getenv provider = required_client_id provider (
    if provider == "google"
    then getenv "UNISON_OAUTH_GOOGLE_CLIENT_ID"
    else getenv "UNISON_OAUTH_MICROSOFT_CLIENT_ID")

unfoldable pub client_secret_of : (String → Option String) → String → Option String
client_secret_of getenv provider =
    if provider == "google"
    then getenv "UNISON_OAUTH_GOOGLE_CLIENT_SECRET"
    else getenv "UNISON_OAUTH_MICROSOFT_CLIENT_SECRET"

unfoldable pub device_code_endpoint : String → Result String
device_code_endpoint provider =
    if provider == "google"
    then ok "https://oauth2.googleapis.com/device/code"
    else if provider == "microsoft"
    then ok "https://login.microsoftonline.com/common/oauth2/v2.0/devicecode"
    else err (policy_error "unknown oauth provider")

unfoldable pub token_endpoint : String → Result String
token_endpoint provider =
    if provider == "google"
    then ok "https://oauth2.googleapis.com/token"
    else if provider == "microsoft"
    then ok "https://login.microsoftonline.com/common/oauth2/v2.0/token"
    else err (policy_error "unknown oauth provider")

-- an event about a capability that is let through
abbrev pub allowed_event : String → Value → String → AuditEvent
allowed_event event principal capability_id = record {
  event = event;
  principal = principal;
  request_id = none;
  resource_type = some "capability";
  resource_id = some capability_id;
  classification = "internal";
  outcome = "allow";
  reason = none;
  extra = end;
  severity = "INFO";
}

-- `v.get(…)` on what `resp.json()` gave: only a dict has it
abbrev pub json_dict : Result Value → Result Fields
json_dict (err e) = err e
json_dict (ok (obj fs)) = ok fs
json_dict (ok v) = err (python_error "AttributeError")

-- `v or w`
abbrev pub or_value : Value → Value → Value
or_value v w = if truthy v then v else w

-- `int(v or n)`
unfoldable pub int_or : ⦃py : Python⦄ → ℕ → Value → Result Number
int_or n v = to_int (or_value v (num (decimal false n 0)))

-- the manifest that `start` goes on with
unfoldable pub startable : Option Fields → Result Fields
startable none = err (policy_error "capability not found")
startable (some end) = err (policy_error "capability not found")
startable (some manifest) =
    raise_if (not (is_true (get "requires_oauth" manifest)))
      (policy_error "capability does not require oauth")
    >> raise_if (is_true (get "enabled" manifest)) (policy_error "capability already enabled")
    >> ok manifest

-- What the answer of the device endpoint says.
pub record DeviceCode : Type 0 where
  pub device_code : Value
  pub user_code : Value
  pub verification_uri : Value
  pub expires_in : Number
  pub interval : Number
  pub message : Value

module _ ⦃py : Python⦄ where
  unfoldable pub device_code_in : Fields → Result DeviceCode
  device_code_in d = do
    let uri = or_value (get "verification_uri" d) (get "verification_url" d)
    expires_in ← int_or 600 (get "expires_in" d)
    interval ← int_or 5 (get "interval" d)
    raise_if
        (not (truthy (get "device_code" d)) || not (truthy (get "user_code" d)) || not (truthy uri))
        (run_error "oauth device flow response missing required fields")
    ok (record {
      device_code = get "device_code" d;
      user_code = get "user_code" d;
      verification_uri = uri;
      expires_in = expires_in;
      interval = interval;
      message = get "message" d;
    })
