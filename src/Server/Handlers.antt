-- ===== src/Server/Handlers.antt =====
-- What the routes of src/server.py do, and how a request is served.
use unison_capabilities.Base.{
  ◌*◌, ◌-◌, String, ◌<>◌, true, false, not, Option, none, some, List, [], ◌∷◌, ◌==◌, ltb, is_empty,
  if◌then◌else◌,
}
use unison_capabilities.Value.{
  decimal, Value, Fields, end, field, obj, arr, str, num, bool, of_list, get, dict_or_empty, Python,
  text_or_empty, to_text, truthy,
}
use unison_capabilities.Error.{Result, ok, err, manifest_error, install_error, raise_if}
use unison_capabilities.Exec.{Exec, pure, lift, ◌>>=◌, ◌>>◌}
use unison_capabilities.Schema.{Validator}
use unison_capabilities.Egress.{Network}
use unison_capabilities.Discovery.{Hashing, Candidate, Score}
use unison_capabilities.Secrets.{Cipher}
use unison_capabilities.Store.{factory_reset}
use unison_capabilities.Security.{
  Response, reply, http_error, Tier, read, run, admin_install, admin_remove, dispatch, admit_tier,
}
use unison_capabilities.Security
use unison_capabilities.Resolver.{list, get_capability, remove, search, resolve}
use unison_capabilities.Resolver.Install.{install}
use unison_capabilities.Resolver.Run
use unison_capabilities.Oauth.Start.{start}
use unison_capabilities.Oauth.Complete.{complete}
use unison_capabilities.Server.{
  App, Api, Call, Handled, metric, on_service, on_store, on_oauth, audited, guarded, timed,
}
use unison_capabilities.Server.Routes.{
  Route, search_route, resolve_route, install_route, run_route, list_route, get_route, remove_route,
  oauth_start_route, oauth_complete_route, factory_reset_route, tier_of, path_of, allowed,
  failure_event,
}

abbrev step_of : Value → Result Fields
step_of (obj step) = ok step
step_of v = err (manifest_error "step required")

abbrev candidate_of_payload : Value → Result Fields
candidate_of_payload (obj candidate) = ok candidate
candidate_of_payload v = err (install_error "candidate required")

-- the score as a number with two decimal places
abbrev score_value : Score → Value
score_value s =
    if ltb s.gained s.lost
    then num (decimal true ((s.lost - s.gained) * 25) 2)
    else num (decimal false ((s.gained - s.lost) * 25) 2)

abbrev with_url : Option String → Fields
with_url none = end
with_url (some url) = if url == "" then end else field "manifest_url" (str url) end

unfoldable pub candidate_value : Candidate → Value
candidate_value c = obj (
    field "candidate_id" (str c.candidate_id) (
      field "source" (str c.source) (
        field "score" (score_value c.score)
          (field "manifest" (obj c.manifest) (with_url c.manifest_url)))))

abbrev pub candidate_values : List Candidate → List Value
candidate_values [] = []
candidate_values (c ∷ cs) = candidate_value c ∷ candidate_values cs

abbrev pub one_field : String → Value → Value
one_field key v = obj (field key v end)

module _ {World : Type 0} ⦃py : Python⦄ ⦃validator : Validator⦄ ⦃hash : Hashing⦄ where
  abbrev fetch_event : Api World → Fields → Call → Exec (App World) (Unit {0})
  fetch_event api user call =
      if is_empty api.setup.registries
      then pure tt
      else audited api (allowed "registry.fetch" user call (some "registry") (some "catalogs"))

  unfoldable pub search_body : Api World → Call → Fields → Fields → Exec (App World) Value
  search_body api call user payload = do
    let intent = text_or_empty (get "intent" payload)
    lift (raise_if (intent == "") (manifest_error "intent required"))
    fetch_event api user call
    audited api (allowed "capability.search" user call (some "intent") (some intent))
    found ← on_store (search api.setup intent (dict_or_empty (get "constraints" payload)))
    pure (one_field "candidates" (arr (of_list (candidate_values found))))

  unfoldable pub resolve_body : Api World → Call → Fields → Fields → Exec (App World) Value
  resolve_body api call user payload = do
    step ← lift (step_of (get "step" payload))
    audited api (
        allowed "capability.resolve" user call (some "intent")
          (some (text_or_empty (get "intent" step))))
    c ← on_store (resolve api.setup (obj step))
    pure (one_field "candidate" (candidate_value c))

  unfoldable pub list_body : Api World → Call → Fields → Exec (App World) Value
  list_body api call user = do
    audited api (allowed "capability.list" user call (some "capability") (some "list"))
    summaries ← on_store list
    pure (one_field "items" (arr (of_list summaries)))

  unfoldable pub get_body :
      Api World → Call → Fields → String → Option String → Exec (App World) Value
  get_body api call user capability_id version = do
    audited api (allowed "capability.get" user call (some "capability") (some capability_id))
    m ← on_store (get_capability capability_id version)
    pure (one_field "manifest" (obj m))

  unfoldable pub remove_body : Api World → Call → Fields → String → String → Exec (App World) Value
  remove_body api call user capability_id version = do
    lift (raise_if (version == "") (manifest_error "version required"))
    removed ← on_store (remove capability_id version)
    audited api (
        allowed "capability.remove" user call (some "capability")
          (some (capability_id <> "@" <> version)))
    pure (one_field "removed" (bool removed))

  -- `bind_identity`, where the mode is `unison_jwt`
  abbrev pub bound_args : Api World → Fields → Result Fields
  bound_args api args = elim api.bind_identity [
    | none ↦ ok args
    | some bind ↦ if api.auth.mode == "unison_jwt" then bind args else ok args
  ]

  unfoldable pub run_body : Api World → Call → Fields → Fields → Exec (App World) Value
  run_body api call user payload = do
    let capability_id = get "capability_id" payload
    args ← lift (bound_args api (dict_or_empty (get "args" payload)))
    lift (raise_if (not (truthy capability_id)) (manifest_error "capability_id required"))
    audited api (
        allowed "capability.run_start" user call (some "capability") (some (to_text capability_id)))
    result ←
        on_service (Run.run api.engine call.now api.allow_legacy (to_text capability_id) (obj args))
    pure (one_field "result" result)

module _ {World : Type 0} ⦃py : Python⦄ ⦃validator : Validator⦄ ⦃hash : Hashing⦄
    ⦃net : Network⦄ where
  unfoldable pub install_body : Api World → Call → Fields → Fields → Exec (App World) Value
  install_body api call user payload = do
    candidate ← lift (candidate_of_payload (get "candidate" payload))
    audited api (
        allowed "capability.install_start" user call (some "capability")
          (some (text_or_empty (get "id" (dict_or_empty (get "manifest" candidate))))))
    on_store (install api.setup call.uuid (obj candidate))

abbrev pub in_some : {A B : Type 0} → (A → B) → Option A → Option B
in_some f none = none
in_some f (some a) = some (f a)

-- `isinstance(v, str) and v`
abbrev pub text_id : Value → Option String
text_id (str s) = if s == "" then none else some s
text_id v = none

-- the name under which `_observe` adds the time of a route, if it does
abbrev pub op_of : Route → Option String
op_of (search_route payload) = some "search"
op_of (resolve_route payload) = some "resolve"
op_of (install_route payload) = some "install"
op_of (run_route payload) = some "run"
op_of list_route = some "list"
op_of (get_route capability_id version) = some "get"
op_of (remove_route capability_id version) = some "remove"
op_of route = none

abbrev missing_id : Route → String
missing_id (oauth_complete_route payload) = "session_id required"
missing_id route = "capability_id required"

module _ {World : Type 0} ⦃py : Python⦄ ⦃validator : Validator⦄ ⦃hash : Hashing⦄ ⦃net : Network⦄
    ⦃cipher : Cipher⦄ where
  unfoldable pub reset_body : Api World → Call → Fields → Exec (App World) Value
  reset_body api call user = do
    on_store factory_reset
    audited api (allowed "capability.factory_reset" user call none none)
    pure (one_field "status" (str "ok"))

  -- `default_oauth_manager`, then its `start` or `complete`
  unfoldable pub oauth_start_body : Api World → Call → Fields → String → Exec (App World) Value
  oauth_start_body api call user capability_id =
      lift api.secrets_key >> on_oauth (start api.oauth call.uuid capability_id (obj user))

  unfoldable pub oauth_complete_body : Api World → Call → Fields → String → Exec (App World) Value
  oauth_complete_body api call user session_id =
      lift api.secrets_key >> on_oauth (complete api.oauth session_id (obj user))

  -- The `try` block of a route; a route of the OAuth flow whose id is missing has none.
  unfoldable pub body_of : Api World → Call → Fields → Route → Option (Exec (App World) Value)
  body_of api call user (search_route payload) = some (search_body api call user payload)
  body_of api call user (resolve_route payload) = some (resolve_body api call user payload)
  body_of api call user (install_route payload) = some (install_body api call user payload)
  body_of api call user (run_route payload) = some (run_body api call user payload)
  body_of api call user list_route = some (list_body api call user)
  body_of api call user (get_route capability_id version) =
      some (get_body api call user capability_id version)
  body_of api call user (remove_route capability_id version) =
      some (remove_body api call user capability_id version)
  body_of api call user (oauth_start_route payload) =
      in_some (oauth_start_body api call user) (text_id (get "capability_id" payload))
  body_of api call user (oauth_complete_route payload) =
      in_some (oauth_complete_body api call user) (text_id (get "session_id" payload))
  body_of api call user factory_reset_route = some (reset_body api call user)

  abbrev pub timed_as : Api World → Call → Option String → Handled World → Handled World
  timed_as api call none h = h
  timed_as api call (some op) h = timed api op call.seconds h

  abbrev pub handled :
      Api World
      → Call
      → Fields
      → Route
      → Option (Exec (App World) Value)
      → App World
      → Handled World
  handled api call user route none s = (http_error 400 (missing_id route), s)
  handled api call user route (some body) s =
      timed_as api call (op_of route) (guarded api (failure_event route user call) body s)

  -- a route's handler, for the user that its tier let through
  unfoldable pub handle : Api World → Call → Fields → Route → App World → Handled World
  handle api call user route s =
      handled api call user route (body_of api call user route) (metric (path_of route) s)

  -- the middleware and the dependency of the route
  unfoldable pub admit : Api World → Call → Route → Response Fields
  admit api call route =
      Security.◌>>◌ (dispatch api.unsafe_allow_nonlocal call.client)
        (admit_tier api.tokens api.environment api.auth api.authz (tier_of route) call.credentials)

  abbrev pub served : Api World → Call → Route → Response Fields → App World → Handled World
  served api call route (reply user) s = handle api call user route s
  served api call route (http_error code detail) s = (http_error code detail, s)

  -- One request.
  unfoldable pub serve : Api World → Call → Route → App World → Handled World
  serve api call route s = served api call route (admit api call route) s

  -- The requests of a history, one after the other, and the state after them.
  unfoldable pub serve_all : Api World → List (Call × Route) → App World → App World
  serve_all api [] s = s
  serve_all api ((call, route) ∷ rest) s = serve_all api rest (serve api call route s).1
