-- ===== src/Server/Counted.antt =====
-- The counters of src/server.py count the requests that were let through.
use unison_capabilities.Base.{
  ℕ, ◌+◌, String, ◌≡◌, refl, ◌∙◌, Bool, true, false, Option, none, some, List, [], ◌∷◌, arith, ◌==◌,
  eq_iff, Bool-cases, inl, inr, if◌then◌else◌,
}
use unison_capabilities.Base.Dict
use unison_capabilities.Base.Dict.{Dict, lookup-insert}
use unison_capabilities.Value.{Value, Fields, Python}
use unison_capabilities.Error.{Error, Result, ok, err}
use unison_capabilities.Exec.{Exec}
use unison_capabilities.Exec.Within.{Preorder, Within, within_rules}
use unison_capabilities.Schema.{Validator}
use unison_capabilities.Egress.{Network}
use unison_capabilities.Discovery.{Hashing}
use unison_capabilities.Audit.{AuditEvent}
use unison_capabilities.Secrets.{Cipher}
use unison_capabilities.Store.{CapabilityStore}
use unison_capabilities.Security.{Response, reply, http_error}
use unison_capabilities.Resolver.Run.{Service}
use unison_capabilities.Oauth.{Onboarding}
use unison_capabilities.Server.{
  App, Api, Call, Handled, count_in, count_of, on_store, on_service, on_oauth, audited, guarded,
  observe, metric, answered, log_line,
}
use unison_capabilities.Server.Routes.{
  Route, search_route, resolve_route, install_route, run_route, list_route, get_route, remove_route,
  oauth_start_route, oauth_complete_route, factory_reset_route, path_of, failure_event,
}
use unison_capabilities.Server.Handlers.{
  search_body, resolve_body, list_body, get_body, remove_body, run_body, install_body, reset_body,
  oauth_start_body, oauth_complete_body, body_of, in_some, handled, timed_as, op_of, handle, admit,
  served, serve, serve_all,
}

module _ {World : Type 0} where
  abbrev SameCounts : App World → App World → Type 0
  SameCounts s t = t.metrics.requests ≡ s.metrics.requests

  SameCounts-preorder : Preorder SameCounts
  SameCounts-preorder = record { reflexive = λ s. refl; transitive = λ s t u p q. q ∙ p }

  audited-SameCounts :
      ⦃hash : Hashing⦄
      → (api : Api World) (event : AuditEvent) → Within SameCounts (audited api event)
  unfolding log_line
  audited-SameCounts api event = record { at = λ s. refl }

  store-SameCounts : {A : Type 0} (m : Exec CapabilityStore A) → Within SameCounts (on_store m)
  store-SameCounts m = record { at = λ s. refl }

  service-SameCounts : {A : Type 0} (m : Exec (Service World) A) → Within SameCounts (on_service m)
  service-SameCounts m = record { at = λ s. refl }

  oauth-SameCounts : {A : Type 0} (m : Exec Onboarding A) → Within SameCounts (on_oauth m)
  oauth-SameCounts m = record { at = λ s. refl }

ruleset counts_rules = (
  within_rules, SameCounts-preorder, audited-SameCounts, store-SameCounts, service-SameCounts,
  oauth-SameCounts,
)

module _ {World : Type 0} ⦃py : Python⦄ ⦃validator : Validator⦄ ⦃hash : Hashing⦄ ⦃net : Network⦄
    ⦃cipher : Cipher⦄ (api : Api World) (call : Call) (user : Fields) where
  search_counts : (p : Fields) → Within SameCounts (search_body api call user p)
  unfolding search_body
  search_counts p = search (counts_rules) depth 16

  resolve_counts : (p : Fields) → Within SameCounts (resolve_body api call user p)
  unfolding resolve_body
  resolve_counts p = search (counts_rules) depth 16

  install_counts : (p : Fields) → Within SameCounts (install_body api call user p)
  unfolding install_body
  install_counts p = search (counts_rules) depth 16

  run_counts : (p : Fields) → Within SameCounts (run_body api call user p)
  unfolding run_body
  run_counts p = search (counts_rules) depth 16

  list_counts : Within SameCounts (list_body api call user)
  unfolding list_body
  list_counts = search (counts_rules) depth 16

  get_counts : (id : String) (v : Option String) → Within SameCounts (get_body api call user id v)
  unfolding get_body
  get_counts id v = search (counts_rules) depth 16

  remove_counts : (id v : String) → Within SameCounts (remove_body api call user id v)
  unfolding remove_body
  remove_counts id v = search (counts_rules) depth 16

  reset_counts : Within SameCounts (reset_body api call user)
  unfolding reset_body
  reset_counts = search (counts_rules) depth 16

  start_counts : (id : String) → Within SameCounts (oauth_start_body api call user id)
  unfolding oauth_start_body
  start_counts id = search (counts_rules) depth 16

  complete_counts : (id : String) → Within SameCounts (oauth_complete_body api call user id)
  unfolding oauth_complete_body
  complete_counts id = search (counts_rules) depth 16

  answered_counts :
      (on_error : Error → Result AuditEvent) (r : Result Value) (t : App World)
      → (answered api on_error r t).1.metrics.requests ≡ t.metrics.requests
  unfolding log_line
  answered_counts on_error (ok v) t = refl
  answered_counts on_error (err e) t = ground arith

  guarded_counts :
      (on_error : Error → Result AuditEvent) (body : Exec (App World) Value)
      → Within SameCounts body
      → (s : App World) → (guarded api on_error body s).1.metrics.requests ≡ s.metrics.requests
  unfolding guarded
  guarded_counts on_error body kept s = answered_counts on_error (body s).0 (body s).1 ∙ kept.at s

  timed_counts :
      (op : Option String) (h : Handled World)
      → (timed_as api call op h).1.metrics.requests ≡ h.1.metrics.requests
  unfolding observe
  timed_counts none h = refl
  timed_counts (some op) h = refl

  handled_counts :
      (route : Route) (body : Exec (App World) Value) (s : App World)
      → Within SameCounts body
      → (handled api call user route (some body) s).1.metrics.requests ≡ s.metrics.requests
  handled_counts route body s kept =
      timed_counts (op_of route) (guarded api (failure_event route user call) body s)
      ∙ guarded_counts (failure_event route user call) body kept s

  flow_counts :
      (route : Route) (f : String → Exec (App World) Value) (id : Option String) (s : App World)
      → ((i : String) → Within SameCounts (f i))
      → (handled api call user route (in_some f id) s).1.metrics.requests ≡ s.metrics.requests
  flow_counts route f none s kept = refl
  flow_counts route f (some id) s kept = handled_counts route (f id) s (kept id)

  body_counts :
      (route : Route) (s : App World)
      → (handled api call user route (body_of api call user route) s).1.metrics.requests
        ≡ s.metrics.requests
  unfolding body_of
  body_counts (search_route p) s = handled_counts (search_route p) _ s (search_counts p)
  body_counts (resolve_route p) s = handled_counts (resolve_route p) _ s (resolve_counts p)
  body_counts (install_route p) s = handled_counts (install_route p) _ s (install_counts p)
  body_counts (run_route p) s = handled_counts (run_route p) _ s (run_counts p)
  body_counts list_route s = handled_counts list_route _ s list_counts
  body_counts (get_route id v) s = handled_counts (get_route id v) _ s (get_counts id v)
  body_counts (remove_route id v) s = handled_counts (remove_route id v) _ s (remove_counts id v)
  body_counts (oauth_start_route p) s = flow_counts (oauth_start_route p) _ _ s start_counts
  body_counts (oauth_complete_route p) s =
      flow_counts (oauth_complete_route p) _ _ s complete_counts
  body_counts factory_reset_route s = handled_counts factory_reset_route _ s reset_counts

  handle_counts :
      (route : Route) (s : App World)
      → (handle api call user route s).1.metrics.requests
        ≡ count_in (path_of route) s.metrics.requests
  unfolding handle metric
  handle_counts route s = body_counts route (metric (path_of route) s)

abbrev is_let_through : Response Fields → Bool
is_let_through (reply user) = true
is_let_through (http_error code detail) = false

count_in_lem :
    (name path : String) (d : Dict ℕ)
    → count_of (Dict.lookup path (count_in name d))
      ≡ (if name == path then 1 else 0) + count_of (Dict.lookup path d)
unfolding count_in
count_in_lem name path d = elim (Bool-cases (name == path)) [
  | inl same ↦ rw (lookup-insert, same, (eq_iff name path).0 same) (omega arith)
  | inr other ↦ rw (lookup-insert, other) (omega arith)
]

-- The requests that were counted under a path.
abbrev pub requests_of : {World : Type 0} → String → App World → ℕ
requests_of path s = count_of (Dict.lookup path s.metrics.requests)

module _ {World : Type 0} ⦃py : Python⦄ ⦃validator : Validator⦄ ⦃hash : Hashing⦄ ⦃net : Network⦄
    ⦃cipher : Cipher⦄ where
  -- one for a request of the path that is let through
  abbrev pub counts_for : Api World → String → Call → Route → ℕ
  counts_for api path call route =
      if path_of route == path then if is_let_through (admit api call route) then 1 else 0 else 0

  -- the requests of the path in a history that are let through
  abbrev pub admitted_in : Api World → String → List (Call × Route) → ℕ
  admitted_in api path [] = 0
  admitted_in api path ((call, route) ∷ rest) =
      counts_for api path call route + admitted_in api path rest

  served_count :
      (api : Api World) (path : String) (call : Call) (route : Route) (r : Response Fields)
      (s : App World)
      → admit api call route ≡ r
      → requests_of path (served api call route r s).1
        ≡ counts_for api path call route + requests_of path s
  served_count api path call route (http_error code detail) s h = rw h (ground arith)
  served_count api path call route (reply user) s h =
      rw (h, handle_counts api call user route s)
        (count_in_lem (path_of route) path s.metrics.requests)

  -- After any history of requests, every path has been counted once for each of its requests that
  -- was let through.
  pub serve_all_counts :
      (api : Api World) (path : String) (history : List (Call × Route)) (s : App World)
      → requests_of path (serve_all api history s)
        ≡ admitted_in api path history + requests_of path s
  unfolding serve_all serve
  serve_all_counts api path [] s = omega arith
  serve_all_counts api path ((call, route) ∷ rest) s =
      let now = served_count api path call route (admit api call route) s refl in
      let later =
        serve_all_counts api path rest (served api call route (admit api call route) s).1 in
      omega (arith, now, later)
