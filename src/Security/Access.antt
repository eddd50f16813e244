-- ===== src/Security/Access.antt =====
-- Who is let through by src/security.py.
use unison_capabilities.Base.{
  String, ◌≡◌, ◌≢◌, refl, ◌↔◌, ◌⊎◌, inl, inr, Bool, true, false, Option, none, some, List, [], ◌∷◌,
  arith, ap, ◌==◌, eq_iff, eq_refl, any, lower, member, Bool-cases,
}
use unison_capabilities.Value.{Fields, Python}
use unison_capabilities.Policy.{env_or}
use unison_capabilities.Security.{
  reply, AuthConfig, AuthzConfig, Credentials, TokenService, Tier, read, run, admin_install,
  admin_remove, dispatch, service_user, static_bearer_auth, bearer_of, configured, jwt_auth,
  authenticate, roles_required, allowed_services, user_roles, username_of, authorize,
}

abbrev pub local_hosts : List String
local_hosts = "127.0.0.1" ∷ "::1" ∷ "testclient" ∷ "testserver" ∷ []

-- A request passes exactly when non-local access is allowed, when it has no client, or when its
-- client is one of the local hosts.
pub dispatch_iff :
    (unsafe : Bool) (client : Option String)
    → (dispatch unsafe client ≡ reply tt) ↔ (
        (unsafe ≡ true)
        ⊎ ((client ≡ none)
            ⊎ ((host : String) × (client ≡ some host) × (member host local_hosts ≡ true))))
unfolding dispatch member
dispatch_iff true client = (λ h. inl refl, λ h. refl)
dispatch_iff false none = (λ h. inr (inl refl), λ h. refl)
dispatch_iff false (some host) = (
  λ h. inr (inr (host, refl, ground arith)),
  λ h. elim h [
    | inl on ↦ cc
    | inr (inl gone) ↦ cc
    | inr (inr (x, same, local)) ↦ ground (arith, same, local)
  ],
)

-- the environment is production
abbrev pub is_production : Option String → Bool
is_production environment =
    member (lower (env_or "development" environment)) ("prod" ∷ "production" ∷ [])

-- The caller sent the configured token, which is not empty, in the bearer scheme.
abbrev pub SentToken : AuthConfig → Option Credentials → Type 0
SentToken auth credentials =
    (c : Credentials) × (credentials ≡ some c)
    × (lower c.scheme ≡ "bearer")
    × (c.credentials ≢ "")
    × (auth.static_bearer_token ≡ some c.credentials)

bearer_lem :
    (credentials : Option Credentials) (token : String)
    → bearer_of credentials ≡ reply token
    → (c : Credentials) × (credentials ≡ some c)
      × (lower c.scheme ≡ "bearer")
      × (c.credentials ≡ token)
bearer_lem none token h = cc
bearer_lem (some c) token h =
    (c, refl, ground (arith, eq_iff (lower c.scheme) "bearer"), ground arith)

configured_lem :
    (given : Option String) (token : String)
    → configured given ≡ reply token
    → (given ≡ some token) × (token ≢ "")
configured_lem none token h = cc
configured_lem (some t) token h = (ground arith, λ e. ground (arith, eq_iff t ""))

static_lem :
    (environment : Option String) (auth : AuthConfig) (credentials : Option Credentials)
    (u : Fields)
    → static_bearer_auth environment auth credentials ≡ reply u
    → (is_production environment ≡ false)
      × SentToken auth credentials
      × (u ≡ service_user "static-bearer")
unfolding static_bearer_auth
static_lem environment auth credentials u h =
    let (given, sent) : (t : String) × (bearer_of credentials ≡ reply t) = ground arith in
    let (token, stored) : (t : String) × (configured auth.static_bearer_token ≡ reply t) =
      ground arith in
    let (c, same, bearer, text) = bearer_lem credentials given sent in
    let (set, nonempty) = configured_lem auth.static_bearer_token token stored in
    let equal : given ≡ token = ground (arith, eq_iff given token) in
    (
      ground arith,
      (c, same, bearer, (λ e. nonempty (cc (e, text, equal))), cc (set, text, equal)),
      ground arith,
    )

-- With a static bearer token, only a caller that sent the configured token is let through, never in
-- production, and always as the user `static-bearer` of the role `service`.
pub static_bearer_sound :
    (tokens : Option TokenService) (environment : Option String) (auth : AuthConfig)
    → (credentials : Option Credentials) (u : Fields) → auth.mode ≡ "static_bearer"
    → authenticate tokens environment auth credentials ≡ reply u
    → (is_production environment ≡ false)
      × SentToken auth credentials
      × (u ≡ service_user "static-bearer")
unfolding authenticate static_bearer_auth
static_bearer_sound tokens environment auth credentials u mode h =
    static_lem environment auth credentials u (rw mode at h)

-- No authentication mode but these three lets a caller through, and `disabled` needs its flag.
pub authenticate_modes :
    (tokens : Option TokenService) (environment : Option String) (auth : AuthConfig)
    → (credentials : Option Credentials) (u : Fields)
    → authenticate tokens environment auth credentials ≡ reply u
    → ((auth.mode ≡ "disabled") × (auth.unsafe_allow_no_auth ≡ true))
      ⊎ ((auth.mode ≡ "static_bearer") ⊎ ((auth.mode ≡ "unison_jwt") × (tokens ≢ none)))
unfolding authenticate jwt_auth
authenticate_modes tokens environment auth credentials u h =
    let disabled = eq_iff auth.mode "disabled" in
    let static = eq_iff auth.mode "static_bearer" in
    let jwt = eq_iff auth.mode "unison_jwt" in
    elim (Bool-cases (auth.mode == "disabled")) [
      | inl off ↦ inl (disabled.0 off, ground arith)
      | inr other ↦ inr (elim (Bool-cases (auth.mode == "static_bearer")) [
        | inl here ↦ inl (static.0 here)
        | inr rest ↦ inr (jwt.0 (ground arith), λ e. ground arith)
      ])
    ]

module _ ⦃py : Python⦄ where
  -- A role that the user has and the list names.
  abbrev pub Shares : List String → Fields → Type 0
  Shares roles user = (r : String) × (member r roles ≡ true) × (member r (user_roles user) ≡ true)

  -- The user has a name, which the list of services names.
  abbrev pub IsService : List String → Fields → Type 0
  IsService services user = (username_of user ≢ "") × (member (username_of user) services ≡ true)

  -- The users of each tier: by a role, and in the two tiers that write also by name.
  abbrev pub MayUseTier : AuthzConfig → Tier → Fields → Type 0
  MayUseTier authz read user = Shares authz.read_roles user
  MayUseTier authz run user = Shares authz.run_roles user
  MayUseTier authz admin_install user =
      Shares authz.admin_roles user ⊎ IsService authz.install_allowed_services user
  MayUseTier authz admin_remove user =
      Shares authz.admin_roles user ⊎ IsService authz.remove_allowed_services user

  shares_sound :
      (has : String → Bool) (roles : List String)
      → any has roles ≡ true
      → (r : String) × (member r roles ≡ true) × (has r ≡ true)
  unfolding member
  shares_sound has [] h = cc
  shares_sound has (r ∷ roles) h = elim (Bool-cases (has r)) [
    | inl here ↦ (r, ground (arith, eq_refl r), here)
    | inr other ↦
        let (t, there, holds_of) = shares_sound has roles (rw other at h) in
        (t, ground (arith, there), holds_of)
  ]

  shares_complete :
      (has : String → Bool) (roles : List String) (r : String)
      → member r roles ≡ true
      → has r ≡ true
      → any has roles ≡ true
  unfolding member
  shares_complete has [] r h holds_of = cc
  shares_complete has (t ∷ roles) r h holds_of = elim (Bool-cases (r == t)) [
    | inl here ↦
        let same : r ≡ t = (eq_iff r t).0 here in let first = ap has same in ground (arith, first)
    | inr other ↦ ground (arith, shares_complete has roles r (ground arith) holds_of)
  ]

  Shares-iff :
      (roles : List String) (user : Fields)
      → (any (λ r. member r (user_roles user)) roles ≡ true) ↔ Shares roles user
  Shares-iff roles user = (
    shares_sound (λ r. member r (user_roles user)) roles,
    λ (r, there, holds_of).
        shares_complete (λ r. member r (user_roles user)) roles r there holds_of,
  )

  -- Which lists of the configuration a tier reads.
  rights_iff :
      (authz : AuthzConfig) (tier : Tier) (user : Fields)
      → (Shares (roles_required authz tier) user ⊎ IsService (allowed_services authz tier) user)
        ↔ MayUseTier authz tier user
  unfolding member
  rights_iff authz read user = (λ h. elim h [ inl a ↦ a | inr b ↦ cc ], inl)
  rights_iff authz run user = (λ h. elim h [ inl a ↦ a | inr b ↦ cc ], inl)
  rights_iff authz admin_install user = (λ h. h, λ h. h)
  rights_iff authz admin_remove user = (λ h. h, λ h. h)

  authorize_lem :
      (authz : AuthzConfig) (tier : Tier) (user u : Fields)
      → (authorize authz tier user ≡ reply u) ↔ (
          (u ≡ user)
          × ((any (λ r. member r (user_roles user)) (roles_required authz tier) ≡ true)
              ⊎ IsService (allowed_services authz tier) user))
  unfolding authorize
  authorize_lem authz tier user u =
      let name = eq_iff (username_of user) "" in
      let role = any (λ r. member r (user_roles user)) (roles_required authz tier) in
      let service = member (username_of user) (allowed_services authz tier) in
      elim (Bool-cases role) [
        | inl has_role ↦
            (λ h. (ground arith, inl has_role), λ (same, _). ground (arith, same, has_role))
        | inr no_role ↦ (
          λ h. (ground arith, inr (λ e. ground (arith, name, e, h, no_role), ground arith)),
          λ (same, why). ground (arith, same, why, no_role, name),
        )
      ]

  -- A user may use the tier `read` or `run` exactly with one of that tier's roles, and
  -- `admin_install` or `admin_remove` exactly with one of the admin roles or under a name, which is
  -- not empty, of a service allowed to install or to remove; the user is handed on unchanged.
  pub tier_iff :
      (authz : AuthzConfig) (tier : Tier) (user u : Fields)
      → (authorize authz tier user ≡ reply u) ↔ ((u ≡ user) × MayUseTier authz tier user)
  tier_iff authz tier user u =
      let (sound, complete) = authorize_lem authz tier user u in
      let (have, need) = Shares-iff (roles_required authz tier) user in
      let (to_tier, of_tier) = rights_iff authz tier user in
      (
        λ h.
            let (same, why) = sound h in
            (same, to_tier (elim why [ inl role ↦ inl (have role) | inr name ↦ inr name ])),
        λ (same, why).
            complete
              (same, elim (of_tier why) [ inl role ↦ inl (need role) | inr name ↦ inr name ]),
      )
