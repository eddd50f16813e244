-- ===== src/Oauth/Start.antt =====
-- `start` of src/oauth.py.
use unison_capabilities.Base.{String, ◌<>◌}
use unison_capabilities.Base.Dict
use unison_capabilities.Base.Dict.{Dict}
use unison_capabilities.Value.{Value, end, field, obj, str, num, Python, to_text}
use unison_capabilities.Exec.{Exec, pure, lift, reads, modify, ◌>>=◌, ◌>>◌}
use unison_capabilities.Schema.{Validator}
use unison_capabilities.Egress.{Network, request}
use unison_capabilities.Discovery.{Hashing}
use unison_capabilities.Store.{merged_catalog}
use unison_capabilities.Secrets.{Cipher, put_secret}
use unison_capabilities.Audit.{emit, AuditEvent}
use unison_capabilities.Oauth.{
  OauthManager, Onboarding, Post, Answer, Clock, DeviceCode, on_store, on_secrets, require_https,
  sessions_in, write_sessions, provider_for_capability, scopes_for_capability, client_id_of,
  device_code_endpoint, token_endpoint, allowed_event, json_dict, startable, device_code_in,
}

-- The audit emitter's call.
abbrev pub log_event : ⦃hash : Hashing⦄ → OauthManager → AuditEvent → Exec Onboarding (Unit {0})
log_event manager event = modify (λ s. record s { log = emit manager.audit event s.log })

unfoldable pub device_handle_of : String → String
device_handle_of session_id = "secret://oauth/session/" <> session_id <> "/device_code"

abbrev pub session_entry : Clock → String → String → String → DeviceCode → Value
session_entry clock capability_id provider handle d = obj (
    field "capability_id" (str capability_id) (
      field "provider" (str provider) (
        field "device_code_handle" (str handle) (
          field "expires_at" (num (clock.add clock.time d.expires_in))
            (field "interval" (num d.interval) end)))))

abbrev pub started_reply : String → String → DeviceCode → Value
started_reply session_id provider d = obj (
    field "session_id" (str session_id) (
      field "provider" (str provider) (
        field "user_code" d.user_code (
          field "verification_uri" d.verification_uri (
            field "expires_in" (num d.expires_in)
              (field "interval" (num d.interval) (field "message" d.message end)))))))

module _ ⦃py : Python⦄ ⦃validator : Validator⦄ where
  -- The capability of a call that may start, with its provider, client id and scopes.
  unfoldable pub check_start : OauthManager → String → Exec Onboarding (String × String × String)
  check_start manager capability_id = do
    merged ← on_store merged_catalog
    _ ← lift (startable (Dict.lookup capability_id merged))
    provider ← lift (provider_for_capability capability_id)
    client_id ← lift (client_id_of manager.getenv provider)
    scopes ← lift (scopes_for_capability capability_id provider)
    pure (provider, client_id, scopes)

module _ ⦃py : Python⦄ ⦃hash : Hashing⦄ ⦃net : Network⦄ where
  abbrev pub device_post : String → String → String → Post
  device_post client_id scopes url = record {
    url = url;
    form = field "client_id" (str client_id) (field "scope" (str scopes) end);
  }

  -- `resp.raise_for_status()`, and what the body says
  abbrev pub read_device : Answer → Exec Onboarding DeviceCode
  read_device answer = do
    lift answer.raise_for_status
    d ← lift (json_dict answer.json)
    lift (device_code_in d)

  unfoldable pub ask_device :
      OauthManager → String → Value → String × String × String → Exec Onboarding DeviceCode
  ask_device manager capability_id principal (provider, client_id, scopes) = do
    device_url ← lift (device_code_endpoint provider)
    token_url ← lift (token_endpoint provider)
    lift (require_https device_url)
    lift (require_https token_url)
    log_event manager (allowed_event "oauth.start" principal capability_id)
    answer ←
        lift (
          request manager.egress (λ url. manager.send (device_post client_id scopes url))
            device_url)
    read_device answer

module _ ⦃py : Python⦄ ⦃cipher : Cipher⦄ where
  -- `session_id` is the fresh `uuid.uuid4`.
  unfoldable pub open_session :
      OauthManager → String → String → String → DeviceCode → Exec Onboarding Value
  open_session manager session_id capability_id provider d = do
    let handle = device_handle_of session_id
    on_secrets (put_secret handle (obj (field "device_code" (str (to_text d.device_code)) end)))
    sessions ← reads (λ s. sessions_in s.sessions)
    write_sessions (
        Dict.insert session_id (session_entry manager.clock capability_id provider handle d)
          sessions)
    pure (started_reply session_id provider d)

module _ ⦃py : Python⦄ ⦃validator : Validator⦄ ⦃hash : Hashing⦄ ⦃net : Network⦄
    ⦃cipher : Cipher⦄ where
  unfoldable pub start : OauthManager → String → String → Value → Exec Onboarding Value
  start manager session_id capability_id principal = do
    checked ← check_start manager capability_id
    d ← ask_device manager capability_id principal checked
    open_session manager session_id capability_id checked.0 d
