-- ===== src/Oauth/Complete.antt =====
-- `complete` of src/oauth.py.
use unison_capabilities.Base.{
  String, ◌<>◌, Bool, true, false, not, Option, none, some, [], ◌∷◌, ◌++◌, ◌==◌, ltb, leb, member,
  keep_if, if◌then◌else◌,
}
use unison_capabilities.Base.Dict
use unison_capabilities.Base.Dict.{Dict}
use unison_capabilities.Value.{
  Number, decimal, Value, Fields, end, field, obj, arr, nil, str, num, bool, get, put, of_list,
  Python, to_text, text_or, text_or_empty, to_float, truthy,
}
use unison_capabilities.Value.Compare.{iterate}
use unison_capabilities.Error
use unison_capabilities.Error.{Result, ok, err, policy_error, run_error}
use unison_capabilities.Exec.{Exec, pure, lift, reads, ◌>>=◌, ◌>>◌}
use unison_capabilities.Schema.{Validator}
use unison_capabilities.Egress.{Network, request}
use unison_capabilities.Discovery.{Hashing}
use unison_capabilities.Store.{merged_catalog, upsert_local}
use unison_capabilities.Secrets.{Cipher, put_secret, get_secret, delete_secret}
use unison_capabilities.Audit.{of_principal}
use unison_capabilities.Oauth.{
  OauthManager, Onboarding, Post, Clock, Answer, on_store, on_secrets, require_https, sessions_in,
  write_sessions, client_id_of, client_secret_of, token_endpoint, allowed_event, json_dict,
  or_value, int_or,
}
use unison_capabilities.Oauth.Start.{log_event}

-- The session as `complete` reads it.
pub record Session : Type 0 where
  pub capability_id : String
  pub provider : String
  pub device_handle : String
  pub interval : Value

abbrev pub text_field : ⦃py : Python⦄ → String → Fields → String
text_field key s = text_or_empty (get key s)

module _ ⦃py : Python⦄ where
  abbrev pub live : Clock → Fields → Number → Result Session
  live clock s expires_at =
      if clock.is_after clock.time expires_at
      then err (policy_error "oauth session expired")
      else ok (record {
        capability_id = text_field "capability_id" s;
        provider = text_field "provider" s;
        device_handle = text_field "device_code_handle" s;
        interval = get "interval" s;
      })

  -- the session under the id, if it is there and has not expired
  unfoldable pub live_session : Clock → Option Value → Result Session
  live_session clock (some (obj s)) =
      Error.◌>>=◌ (to_float (or_value (get "expires_at" s) (num (decimal false 0 0))))
        (live clock s)
  live_session clock found = err (policy_error "unknown oauth session")

unfoldable pub device_code_of : Fields → Result Value
device_code_of secret =
    if truthy (get "device_code" secret)
    then ok (get "device_code" secret)
    else err (policy_error "missing device_code secret for session")

abbrev pub with_secret : Option String → Fields → Fields
with_secret none form = form
with_secret (some secret) form =
    if secret == "" then form else put "client_secret" (str secret) form

unfoldable pub token_form : String → Option String → Value → Fields
token_form client_id client_secret device_code = with_secret client_secret (
    field "client_id" (str client_id) (
      field "device_code" device_code
        (field "grant_type" (str "urn:ietf:params:oauth:grant-type:device_code") end)))

abbrev pub pending_reply : String → Number → Value
pending_reply e interval =
    obj
      (field "status" (str "pending") (field "error" (str e) (field "interval" (num interval) end)))

abbrev pub enabled_reply : String → Value
enabled_reply capability_id =
    obj (field "status" (str "enabled") (field "capability_id" (str capability_id) end))

-- What the token endpoint's answer means: the user is not done, or there is a refresh token.
pub data Token : Type 0 where
  pending : String → Number → Token
  granted : Value → Token

module _ ⦃py : Python⦄ where
  abbrev pub error_of : Fields → String
  error_of d = text_or "oauth_error" (get "error" d)

  unfoldable pub refused : Value → Fields → Result Token
  refused interval d =
      if member (error_of d) ("authorization_pending" ∷ "slow_down" ∷ [])
      then Error.◌>>=◌ (int_or 5 interval) (λ n. ok (pending (error_of d) n))
      else err (run_error ("oauth token exchange failed: " <> error_of d))

  abbrev pub refresh_token_in : Fields → Result Token
  refresh_token_in d =
      if truthy (get "refresh_token" d)
      then ok (granted (get "refresh_token" d))
      else err (run_error "oauth token response missing refresh_token")

  -- a status of 500 or more has no body
  abbrev pub body : Answer → Result Value
  body answer = if ltb answer.status_code 500 then answer.json else ok (obj end)

  unfoldable pub read_token : Value → Answer → Result Token
  read_token interval answer =
      Error.◌>>=◌ (json_dict (body answer))
        λ d. if leb 400 answer.status_code then refused interval d else refresh_token_in d

  unfoldable pub token_handle_of : String → Value → String → String
  token_handle_of provider principal capability_id =
      "secret://oauth/"
      <> provider
      <> "/"
      <> text_or "unknown" (of_principal "username" principal)
      <> "/"
      <> capability_id
      <> "/refresh_token"

  -- a secret of the manifest that stays: a dict with another name
  unfoldable pub is_other_secret : Value → Bool
  is_other_secret (obj s) = not (text_or_empty (get "name" s) == "OAUTH_REFRESH_TOKEN")
  is_other_secret v = false

  abbrev pub token_reference : String → Value
  token_reference handle =
      obj (field "name" (str "OAUTH_REFRESH_TOKEN") (field "ref" (str handle) end))

  -- the manifest that is enabled with a reference to the token
  unfoldable pub enabled_manifest : String → Fields → Result Fields
  enabled_manifest handle m =
      Error.◌>>=◌ (iterate (or_value (get "secrets" m) (arr nil))) λ secrets. ok (
        put "secrets"
          (arr (of_list (keep_if is_other_secret secrets ++ token_reference handle ∷ [])))
          (put "enabled" (bool true) m))

  unfoldable pub manifest_to_enable : Option Fields → Result Fields
  manifest_to_enable (some (field k v fs)) = ok (field k v fs)
  manifest_to_enable found = err (policy_error "capability not found")

module _ ⦃py : Python⦄ ⦃hash : Hashing⦄ ⦃net : Network⦄ ⦃cipher : Cipher⦄ where
  -- The part that asks the token endpoint.
  abbrev pub token_post : OauthManager → String → String → Value → String → Post
  token_post manager provider client_id device_code url = record {
    url = url;
    form = token_form client_id (client_secret_of manager.getenv provider) device_code;
  }

  unfoldable pub ask_token : OauthManager → Value → Session → Exec Onboarding Token
  ask_token manager principal session = do
    secret ← on_secrets (get_secret session.device_handle)
    device_code ← lift (device_code_of secret)
    client_id ← lift (client_id_of manager.getenv session.provider)
    token_url ← lift (token_endpoint session.provider)
    lift (require_https token_url)
    log_event manager (allowed_event "oauth.complete" principal session.capability_id)
    answer ← lift (
        request manager.egress
          (λ url. manager.send (token_post manager session.provider client_id device_code url))
          token_url)
    lift (read_token session.interval answer)

module _ ⦃py : Python⦄ ⦃validator : Validator⦄ ⦃cipher : Cipher⦄ where
  -- The token is stored, and the connector is enabled with a reference to it.
  unfoldable pub enable_connector : Value → Session → Value → Exec Onboarding (Unit {0})
  enable_connector principal session refresh_token = do
    let handle = token_handle_of session.provider principal session.capability_id
    on_secrets (put_secret handle (obj (field "refresh_token" (str (to_text refresh_token)) end)))
    merged ← on_store merged_catalog
    m ← lift (manifest_to_enable (Dict.lookup session.capability_id merged))
    enabled ← lift (enabled_manifest handle m)
    on_store (upsert_local enabled)

module _ ⦃py : Python⦄ ⦃hash : Hashing⦄ ⦃cipher : Cipher⦄ where
  unfoldable pub close_session :
      OauthManager → String → Value → Session → Dict Value → Exec Onboarding Value
  close_session manager session_id principal session sessions = do
    _ ← on_secrets (delete_secret session.device_handle)
    write_sessions (Dict.erase session_id sessions)
    log_event manager (allowed_event "capability.enabled" principal session.capability_id)
    pure (enabled_reply session.capability_id)

module _ ⦃py : Python⦄ ⦃validator : Validator⦄ ⦃hash : Hashing⦄ ⦃net : Network⦄
    ⦃cipher : Cipher⦄ where
  unfoldable pub on_token :
      OauthManager → String → Value → Session → Dict Value → Token → Exec Onboarding Value
  on_token manager session_id principal session sessions (pending e interval) =
      pure (pending_reply e interval)
  on_token manager session_id principal session sessions (granted refresh_token) =
      enable_connector principal session refresh_token
      >> close_session manager session_id principal session sessions

  unfoldable pub complete : OauthManager → String → Value → Exec Onboarding Value
  complete manager session_id principal = do
    sessions ← reads (λ s. sessions_in s.sessions)
    session ← lift (live_session manager.clock (Dict.lookup session_id sessions))
    token ← ask_token manager principal session
    on_token manager session_id principal session sessions token
