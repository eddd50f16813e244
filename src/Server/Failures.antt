-- ===== src/Server/Failures.antt =====
-- How src/server.py answers and logs a request that fails.
use unison_capabilities.Base.{
  ℕ, String, ◌≡◌, refl, sym, subst, ap, ◌∙◌, ◌⊎◌, inl, inr, true, Option, none, some, List, ◌∷◌,
  Bool-cases,
}
use unison_capabilities.Value.{
  Value, Fields, end, obj, null, bool, num, str, arr, Python, get, has, as_dict, to_text,
}
use unison_capabilities.Error.{
  Error, Result, ok, err, not_found_error, manifest_error, policy_error, install_error, run_error,
  python_error, message,
}
use unison_capabilities.Exec.{Exec}
use unison_capabilities.Schema.{Validator}
use unison_capabilities.Egress.{Network}
use unison_capabilities.Discovery.{Hashing}
use unison_capabilities.Audit.{AuditEvent, Line, audit_line, emit}
use unison_capabilities.Secrets.{Cipher}
use unison_capabilities.Security.{Response, reply, http_error}
use unison_capabilities.Server.{
  App, Api, Call, Handled, http_error_of, metric, observe, answered, guarded, log_line,
}
use unison_capabilities.Server.Routes.{
  Route, search_route, resolve_route, install_route, run_route, list_route, get_route, remove_route,
  oauth_start_route, oauth_complete_route, factory_reset_route, path_of, failure_event, error_event,
  failed_id, id_in,
}
use unison_capabilities.Server.Handlers.{body_of, handled, op_of, timed_as, handle, admit, serve}

-- The status that the service answers an exception with.
abbrev pub status_of : Error → ℕ
status_of (not_found_error s) = 404
status_of (manifest_error s) = 400
status_of (policy_error s) = 400
status_of (install_error s) = 400
status_of (run_error s) = 500
status_of (python_error s) = 500

http_error_of_lem :
    {A : Type 0} (e : Error) → http_error_of {A = A} e ≡ http_error (status_of e) (message e)
unfolding http_error_of
http_error_of_lem (not_found_error s) = refl
http_error_of_lem (manifest_error s) = refl
http_error_of_lem (policy_error s) = refl
http_error_of_lem (install_error s) = refl
http_error_of_lem (run_error s) = refl
http_error_of_lem (python_error s) = refl

-- An installation whose candidate has a manifest that is no object.
pub record BadCandidate (route : Route) : Type 0 where
  pub payload : Fields
  pub candidate : Fields
  pub is_install : route ≡ install_route payload
  pub given : get "candidate" payload ≡ obj candidate
  pub there : has "manifest" candidate ≡ true
  pub no_object : as_dict (get "manifest" candidate) ≡ none

record IsErrorEvent (user : Fields) (e : Error) (event : AuditEvent) : Type 0 where
  outcome : event.outcome ≡ "error"
  principal : event.principal ≡ obj user
  reason : event.reason ≡ some (message e)

error_event-IsErrorEvent :
    (name : String) (user : Fields) (call : Call) (kind id : Option String) (e : Error)
    → IsErrorEvent user e (error_event name user call kind id e)
error_event-IsErrorEvent name user call kind id e = record {
  outcome = refl;
  principal = refl;
  reason = refl;
}

module _ {World : Type 0} ⦃hash : Hashing⦄ where
  -- The answer to the exception that a body raised, and one more line of the log: an event of the
  -- request's user whose outcome is an error, with the exception's message.
  pub record IsLogged (api : Api World) (user : Fields) (outcome : Result Value)
      (earlier : List Line) (code : ℕ) (detail : String) (log : List Line) : Type 0 where
    pub cause : Error
    pub raised : outcome ≡ err cause
    pub status : code ≡ status_of cause
    pub text : detail ≡ message cause
    pub event : AuditEvent
    pub logged : log ≡ audit_line api.audit event ∷ earlier
    pub is_error : event.outcome ≡ "error"
    pub principal : event.principal ≡ obj user
    pub reason : event.reason ≡ some detail

NoGet : Value → Type 0
NoGet v = (as_dict v ≡ none) × ((raised : Error) × (id_in v ≡ err raised))

id_in_lem : (v : Value) → ((r : Value) × (id_in v ≡ ok r)) ⊎ NoGet v
unfolding NoGet
id_in_lem (obj m) = inl (get "id" m, refl)
id_in_lem null = inr (refl, (python_error "AttributeError", refl))
id_in_lem (bool b) = inr (refl, (python_error "AttributeError", refl))
id_in_lem (num n) = inr (refl, (python_error "AttributeError", refl))
id_in_lem (str t) = inr (refl, (python_error "AttributeError", refl))
id_in_lem (arr vs) = inr (refl, (python_error "AttributeError", refl))

module _ ⦃py : Python⦄ where
  -- The id for the log is found, or the candidate has a manifest that is no object.
  failed_id_lem :
      (payload : Fields) (v : Value)
      → get "candidate" payload ≡ v
      → ((id : String) × (failed_id v ≡ ok id))
        ⊎ (BadCandidate (install_route payload) × ((raised : Error) × (failed_id v ≡ err raised)))
  unfolding failed_id NoGet
  failed_id_lem payload (obj candidate) given = elim (Bool-cases (has "manifest" candidate)) [
    | inr missing ↦ inl (to_text (get "id" end), rw missing refl)
    | inl there ↦ elim (id_in_lem (get "manifest" candidate)) [
      | inl (r, found) ↦ inl (to_text r, rw (there, found) refl)
      | inr (none_there, (raised, e)) ↦ inr (
        record {
          payload = payload;
          candidate = candidate;
          is_install = refl;
          given = given;
          there = there;
          no_object = none_there;
        },
        (raised, rw (there, e) refl),
      )
    ]
  ]
  failed_id_lem payload v given = inl ("", refl)

  failure_event_lem :
      (route : Route) (user : Fields) (call : Call) (e : Error)
      → ((event : AuditEvent) × (failure_event route user call e ≡ ok event)
          × IsErrorEvent user e event)
        ⊎ (BadCandidate route × ((raised : Error) × (failure_event route user call e ≡ err raised)))
  unfolding failure_event
  failure_event_lem (install_route payload) user call e =
      elim (failed_id_lem payload (get "candidate" payload) refl) [
        | inl (id, found) ↦ inl (
          error_event "capability.install_failure" user call (some "capability") (some id) e,
          rw found refl,
          error_event-IsErrorEvent "capability.install_failure" user call (some "capability")
              (some id) e,
        )
        | inr (bad, (raised, r)) ↦ inr (bad, (raised, rw r refl))
      ]
  failure_event_lem (search_route payload) user call e =
      inl (_, refl, error_event-IsErrorEvent _ user call _ _ e)
  failure_event_lem (resolve_route payload) user call e =
      inl (_, refl, error_event-IsErrorEvent _ user call _ _ e)
  failure_event_lem (run_route payload) user call e =
      inl (_, refl, error_event-IsErrorEvent _ user call _ _ e)
  failure_event_lem list_route user call e =
      inl (_, refl, error_event-IsErrorEvent _ user call _ _ e)
  failure_event_lem (get_route id v) user call e =
      inl (_, refl, error_event-IsErrorEvent _ user call _ _ e)
  failure_event_lem (remove_route id v) user call e =
      inl (_, refl, error_event-IsErrorEvent _ user call _ _ e)
  failure_event_lem (oauth_start_route payload) user call e =
      inl (_, refl, error_event-IsErrorEvent _ user call _ _ e)
  failure_event_lem (oauth_complete_route payload) user call e =
      inl (_, refl, error_event-IsErrorEvent _ user call _ _ e)
  failure_event_lem factory_reset_route user call e =
      inl (_, refl, error_event-IsErrorEvent _ user call _ _ e)

same_answer :
    {c d : ℕ} {s t : String}
    → ◌≡◌ {A = Response Value} (http_error c s) (http_error d t)
    → (c ≡ d) × (s ≡ t)
same_answer h = (cc, cc)

module _ {World : Type 0} ⦃py : Python⦄ ⦃hash : Hashing⦄ (api : Api World) (route : Route)
    (user : Fields) (call : Call) where
  answered_lem :
      (r : Result Value) (t : App World) (code : ℕ) (detail : String)
      → (answered api (failure_event route user call) r t).0 ≡ http_error code detail
      → IsLogged api user r t.log code detail
          (answered api (failure_event route user call) r t).1.log
        ⊎ (BadCandidate route × (code ≡ 500))
  unfolding log_line emit
  answered_lem (ok v) t code detail h = cc
  answered_lem (err e) t code detail h = elim (failure_event_lem route user call e) [
    | inl (event, made, is) ↦
        let (c, d) = same_answer (sym (http_error_of_lem e) ∙ rw made at h) in
        inl (
          rw made (record {
            cause = e;
            raised = refl;
            status = sym c;
            text = sym d;
            event = event;
            logged = refl;
            is_error = is.outcome;
            principal = is.principal;
            reason = is.reason ∙ ap some d;
          }))
    | inr (bad, (raised, r)) ↦ inr (bad, sym (same_answer (rw r at h)).0)
  ]

module _ {World : Type 0} ⦃py : Python⦄ ⦃validator : Validator⦄ ⦃hash : Hashing⦄ ⦃net : Network⦄
    ⦃cipher : Cipher⦄ where
  -- The failures of an admitted request that leave no line: the id of the OAuth flow is missing, or
  -- the logging of a failed installation fails itself.
  abbrev pub IsUnlogged : Api World → Call → Fields → Route → ℕ → Type 0
  IsUnlogged api call user route code =
      ((body_of api call user route ≡ none) × (code ≡ 400)) ⊎ (BadCandidate route × (code ≡ 500))

  -- The route's body raised, started in `s`, and the answer and the log say what it raised.
  abbrev pub BodyIsLogged :
      Api World → Call → Fields → Route → App World → ℕ → String → List Line → Type 0
  BodyIsLogged api call user route s code detail log =
      (body : Exec (App World) Value) × (body_of api call user route ≡ some body)
      × IsLogged api user (body s).0 (body s).1.log code detail log

  timed_log :
      (api : Api World) (call : Call) (op : Option String) (h : Handled World)
      → ((timed_as api call op h).0 ≡ h.0) × ((timed_as api call op h).1.log ≡ h.1.log)
  unfolding observe
  timed_log api call none h = (refl, refl)
  timed_log api call (some op) h = (refl, refl)

  handled_failure :
      (api : Api World) (call : Call) (user : Fields) (route : Route)
      (body : Option (Exec (App World) Value)) (s : App World) (code : ℕ) (detail : String)
      → body_of api call user route ≡ body
      → (handled api call user route body s).0 ≡ http_error code detail
      → BodyIsLogged api call user route s code detail (handled api call user route body s).1.log
        ⊎ IsUnlogged api call user route code
  unfolding guarded
  handled_failure api call user route none s code detail b h = inr (inl (b, sym (same_answer h).0))
  handled_failure api call user route (some body) s code detail b h =
      let (r, t) = body s in
      let done : Handled World = answered api (failure_event route user call) r t in
      let (same, log) = timed_log api call (op_of route) done in
      elim (answered_lem api route user call r t code detail (sym same ∙ h)) [
        | inl logged ↦
            inl (body, b, subst (λ l. IsLogged api user r t.log code detail l) (sym log) logged)
        | inr bad ↦ inr (inr bad)
      ]

  -- A request that is let through and answered with an error gets the status of the exception that
  -- the body of its route raised, and its message; the log has one line more than the body left,
  -- whose outcome is an error of that user with that message. The exceptions are a missing id of the OAuth flow, and a failed installation whose
  -- candidate has a manifest that is no object.
  pub failure-IsLogged :
      (api : Api World) (call : Call) (user : Fields) (route : Route) (s : App World) (code : ℕ)
      (detail : String)
      → admit api call route ≡ reply user
      → (serve api call route s).0 ≡ http_error code detail
      → BodyIsLogged api call user route
          (metric (path_of route) s)
          code
          detail
          (serve api call route s).1.log
        ⊎ IsUnlogged api call user route code
  unfolding serve handle
  failure-IsLogged api call user route s code detail admitted h = rw admitted (
      handled_failure api call user route (body_of api call user route) (metric (path_of route) s)
        code detail refl (rw admitted at h))
