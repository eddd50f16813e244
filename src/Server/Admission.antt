-- ===== src/Server/Admission.antt =====
-- Which requests to src/server.py can change the catalogs and the artifacts.
use unison_capabilities.Base.{◌≡◌, refl, ◌∙◌, ◌⊎◌, inl, inr, List, [], ◌∷◌, All, arith}
use unison_capabilities.Value.{Value, Fields, Python}
use unison_capabilities.Error.{Error, Result, ok, err}
use unison_capabilities.Exec.{Exec}
use unison_capabilities.Exec.Within.{Within}
use unison_capabilities.Schema.{Validator}
use unison_capabilities.Egress.{Network}
use unison_capabilities.Discovery.{Hashing}
use unison_capabilities.Audit.{AuditEvent}
use unison_capabilities.Secrets.{Cipher}
use unison_capabilities.Store.{CapabilityStore}
use unison_capabilities.Security.{
  Response, reply, http_error, Tier, read, run, admin_install, admin_remove, dispatch, authenticate,
  admit_tier,
}
use unison_capabilities.Security
use unison_capabilities.Security.Access.{MayUseTier, tier_iff}
use unison_capabilities.Server.{App, Api, Call, guarded, observe, metric, answered, log_line}
use unison_capabilities.Server.Routes.{
  Route, search_route, resolve_route, install_route, run_route, list_route, get_route, remove_route,
  oauth_start_route, oauth_complete_route, factory_reset_route, tier_of,
}
use unison_capabilities.Server.Handlers.{body_of, handle, admit, served, serve, serve_all}
use unison_capabilities.Server.Bodies.{
  SameStore, search-Within, resolve-Within, list-Within, get-Within, run_body_store, LeftByEngine,
  RunOrSame,
}

-- The tiers of administration.
abbrev pub IsAdmin : Tier → Type 0
IsAdmin tier = (tier ≡ admin_install) ⊎ (tier ≡ admin_remove)

-- The tiers whose routes can write.
abbrev pub IsWriting : Tier → Type 0
IsWriting tier = IsAdmin tier ⊎ (tier ≡ run)

module _ {World : Type 0} ⦃py : Python⦄ ⦃validator : Validator⦄ ⦃hash : Hashing⦄ ⦃net : Network⦄
    ⦃cipher : Cipher⦄ where
  answered-SameStore :
      (api : Api World) (on_error : Error → Result AuditEvent) (r : Result Value) (t : App World)
      → (answered api on_error r t).1.service.store ≡ t.service.store
  unfolding log_line
  answered-SameStore api on_error (ok v) t = refl
  answered-SameStore api on_error (err e) t = ground arith

  guarded-SameStore :
      (api : Api World) (on_error : Error → Result AuditEvent) (body : Exec (App World) Value)
      → Within SameStore body
      → (s : App World) → (guarded api on_error body s).1.service.store ≡ s.service.store
  unfolding guarded log_line
  guarded-SameStore api on_error body kept s =
      answered-SameStore api on_error (body s).0 (body s).1 ∙ kept.at s

  -- What a route of a tier does to the store.
  abbrev pub Changes : Api World → Tier → CapabilityStore → CapabilityStore → Type 0
  Changes api tier before later =
      (later ≡ before) ⊎ (IsAdmin tier ⊎ ((tier ≡ run) × LeftByEngine api before later))

  guarded-RunOrSame :
      (api : Api World) (on_error : Error → Result AuditEvent) (body : Exec (App World) Value)
      (s : App World)
      → RunOrSame api s.service.store (body s).1.service.store
      → Changes api run s.service.store (guarded api on_error body s).1.service.store
  unfolding guarded
  guarded-RunOrSame api on_error body s h =
      rw (answered-SameStore api on_error (body s).0 (body s).1)
        (elim h [ inl same ↦ inl same | inr left ↦ inr (inr (refl, left)) ])

  handle_reads :
      (api : Api World) (call : Call) (user : Fields) (route : Route) (s : App World)
      → Changes api (tier_of route) s.service.store (handle api call user route s).1.service.store
  unfolding handle body_of tier_of observe metric
  handle_reads api call user (search_route payload) s =
      inl (guarded-SameStore api _ _ (search-Within api call user payload) _)
  handle_reads api call user (resolve_route payload) s =
      inl (guarded-SameStore api _ _ (resolve-Within api call user payload) _)
  handle_reads api call user (run_route payload) s =
      guarded-RunOrSame api _ _ _ (run_body_store api call user payload _)
  handle_reads api call user list_route s =
      inl (guarded-SameStore api _ _ (list-Within api call user) _)
  handle_reads api call user (get_route id v) s =
      inl (guarded-SameStore api _ _ (get-Within api call user id v) _)
  handle_reads api call user (install_route payload) s = inr (inl (inl refl))
  handle_reads api call user (oauth_start_route payload) s = inr (inl (inl refl))
  handle_reads api call user (oauth_complete_route payload) s = inr (inl (inl refl))
  handle_reads api call user (remove_route id v) s = inr (inl (inr refl))
  handle_reads api call user factory_reset_route s = inr (inl (inr refl))

response_then :
    {A B : Type 0} (r : Response A) (f : A → Response B) (b : B)
    → Security.◌>>=◌ r f ≡ reply b
    → (a : A) × (r ≡ reply a) × (f a ≡ reply b)
response_then (reply a) f b h = (a, refl, h)
response_then (http_error code detail) f b h = cc

module _ {World : Type 0} ⦃py : Python⦄ (api : Api World) (call : Call) (tier : Tier) where
  -- Who may use a tier: a caller of this host, unless others may call too, whose token or mode
  -- gives a user with a role of the tier or with the name of a service that it allows.
  pub record MayUse : Type 0 where
    pub user : Fields
    pub local : dispatch api.unsafe_allow_nonlocal call.client ≡ reply tt
    pub authenticated :
        authenticate api.tokens api.environment api.auth call.credentials ≡ reply user
    pub rights : MayUseTier api.authz tier user

module _ {World : Type 0} ⦃py : Python⦄ ⦃validator : Validator⦄ ⦃hash : Hashing⦄ ⦃net : Network⦄
    ⦃cipher : Cipher⦄ where
  admit-MayUse :
      (api : Api World) (call : Call) (route : Route) (u : Fields)
      → admit api call route ≡ reply u
      → MayUse api call (tier_of route)
  unfolding admit admit_tier
  admit-MayUse api call route u h =
      let (_, local, h1) = response_then (dispatch api.unsafe_allow_nonlocal call.client) _ u h in
      let (user, known, h2) =
        response_then (authenticate api.tokens api.environment api.auth call.credentials) _ u h1 in
      record {
        user = user;
        local = local;
        authenticated = known;
        rights = ((tier_iff api.authz (tier_of route) user u).0 h2).1;
      }

  -- What a request does to the store, and who may do that.
  abbrev pub StoreOutcome : Api World → Call → Tier → CapabilityStore → CapabilityStore → Type 0
  StoreOutcome api call tier before later =
      (later ≡ before)
      ⊎ (MayUse api call tier × (IsAdmin tier ⊎ ((tier ≡ run) × LeftByEngine api before later)))

  served_store :
      (api : Api World) (call : Call) (route : Route) (r : Response Fields) (s : App World)
      → admit api call route ≡ r
      → StoreOutcome api call
          (tier_of route)
          s.service.store
          (served api call route r s).1.service.store
  served_store api call route (http_error code detail) s h = inl refl
  served_store api call route (reply user) s h = elim (handle_reads api call user route s) [
    | inl same ↦ inl same
    | inr changed ↦ inr (admit-MayUse api call route user h, changed)
  ]

  -- A request leaves both catalogs and all artifacts as they are, unless the caller may use the
  -- tier of its route, and that is an admin tier, or it is the tier `run` and the engine has left
  -- the store so, called in it for a manifest of the merged view that the policy let through.
  pub serve_store :
      (api : Api World) (call : Call) (route : Route) (s : App World)
      → StoreOutcome api call
          (tier_of route)
          s.service.store
          (serve api call route s).1.service.store
  unfolding serve
  serve_store api call route s = served_store api call route (admit api call route) s refl

  -- A request that cannot write: its route reads, or the caller may not use its tier.
  abbrev pub CannotWrite : Api World → Call × Route → Type 0
  CannotWrite api (call, route) = IsWriting (tier_of route) → ¬ (MayUse api call (tier_of route))

  -- No history of requests that cannot write, which are those that read and those of callers who
  -- may not use the tier, changes the catalogs or the artifacts, whatever the engine does.
  pub serve_all_store :
      (api : Api World) (history : List (Call × Route)) (s : App World)
      → All (CannotWrite api) history
      → (serve_all api history s).service.store ≡ s.service.store
  unfolding serve_all
  serve_all_store api [] s h = refl
  serve_all_store api ((call, route) ∷ rest) s (here, later) = elim (serve_store api call route s) [
    | inl same ↦ serve_all_store api rest (serve api call route s).1 later ∙ same
    | inr (may, inl admin) ↦ absurd (here (inl admin) may)
    | inr (may, inr (is_run, left)) ↦ absurd (here (inr is_run) may)
  ]
