-- ===== src/Security.antt =====
-- src/security.py: who may call the service. The tokens of `unison_common` are a parameter.
pub mod Access
use unison_capabilities.Base.{
  ℕ, String, ◌<>◌, Bool, true, false, not, ◌&&◌, ◌||◌, Option, none, some, List, [], ◌∷◌, ◌==◌, any,
  is_empty, lower, member, if◌then◌else◌,
}
use unison_capabilities.Value.{
  Value, Fields, end, field, obj, arr, str, null, of_list, Python, get, list_or_empty,
  text_or_empty, to_text, truthy,
}
use unison_capabilities.Policy.{env_or}

-- An answer of the web framework: a value, or an `HTTPException` with its status and detail.
pub data Response (A : Type 0) : Type 0 where
  reply : A → Response A
  http_error : (code : ℕ) (detail : String) → Response A

infixl 5 ◌>>=◌ ◌>>◌
abbrev pub ◌>>=◌ : {A B : Type 0} → Response A → (A → Response B) → Response B
reply a >>= f = f a
http_error code detail >>= f = http_error code detail

abbrev pub ◌>>◌ : {B : Type 0} → Response (Unit {0}) → Response B → Response B
m >> k = m >>= λ _. k

-- `if b: raise HTTPException(…)`
abbrev pub deny_if : Bool → ℕ → String → Response (Unit {0})
deny_if true code detail = http_error code detail
deny_if false code detail = reply tt

pub record AuthConfig : Type 0 where
  pub mode : String
  pub static_bearer_token : Option String
  pub unsafe_allow_no_auth : Bool

pub record AuthzConfig : Type 0 where
  pub read_roles : List String
  pub run_roles : List String
  pub admin_roles : List String
  pub install_allowed_services : List String
  pub remove_allowed_services : List String

pub record Credentials : Type 0 where
  pub scheme : String
  pub credentials : String

-- `request.client`: none, or its host. A call that is let through is `reply tt`.
unfoldable pub dispatch : Bool → Option String → Response (Unit {0})
dispatch true client = reply tt
dispatch false none = reply tt
dispatch false (some host) =
    if member host ("127.0.0.1" ∷ "::1" ∷ "testclient" ∷ "testserver" ∷ [])
    then reply tt
    else http_error 403 "non-local access denied"

-- The user of the modes without a principal.
abbrev pub service_user : String → Fields
service_user username = field "username" (str username) (
    field "roles" (arr (of_list (str "service" ∷ [])))
      (field "token_type" (str "service") (field "exp" null end)))

-- `not auth.static_bearer_token`
abbrev pub configured : Option String → Response String
configured none = http_error 500 "static bearer token mode enabled but no token configured"
configured (some token) =
    if token == ""
    then http_error 500 "static bearer token mode enabled but no token configured"
    else reply token

abbrev pub bearer_of : Option Credentials → Response String
bearer_of none = http_error 401 "authentication required"
bearer_of (some c) =
    if lower c.scheme == "bearer"
    then reply c.credentials
    else http_error 401 "authentication required"

-- `environment` is the variable `ENVIRONMENT`.
unfoldable pub static_bearer_auth :
    Option String → AuthConfig → Option Credentials → Response Fields
static_bearer_auth environment auth credentials = do
  deny_if (member (lower (env_or "development" environment)) ("prod" ∷ "production" ∷ [])) 500
      "static bearer authentication is forbidden in production"
  given ← bearer_of credentials
  token ← configured auth.static_bearer_token
  deny_if (not (given == token)) 401 "invalid token"
  reply (service_user "static-bearer")

-- What the code reads of `principal_context_from_claims`.
pub record PrincipalContext : Type 0 where
  pub login_handle : Value
  pub principal_id : Value
  pub person_id : Value
  pub roles : List String
  pub expires_at : Value

-- `unison_common`: the claims of the token, what the auth service says of it, and the context of
-- the claims for an audience, where it does not raise `ValueError`.
pub record TokenService : Type 0 where
  pub verify_token : Option Credentials → Response Fields
  pub verify_with_auth_service : Option Credentials → Response Fields
  pub context_from_claims : Fields → String → Option PrincipalContext

abbrev pub role_values : List String → List Value
role_values [] = []
role_values (r ∷ rs) = str r ∷ role_values rs

abbrev pub or_value : Value → Value → Value
or_value v w = if truthy v then v else w

-- `dict(active.get("claims") or claims)`; `active` holds claims as an object
abbrev pub active_claims : Value → Fields → Fields
active_claims (obj (field k v fs)) claims = field k v fs
active_claims v claims = claims

abbrev pub user_of : Option PrincipalContext → Fields → Response Fields
user_of none claims = http_error 403 "principal audience or binding is invalid"
user_of (some context) claims = reply (
    field "username" (or_value context.login_handle context.principal_id) (
      field "principal_id" context.principal_id (
        field "person_id" context.person_id (
          field "roles" (arr (of_list (role_values context.roles)))
            (field "token_type" (get "type" claims) (field "exp" context.expires_at end))))))

-- `none` where `unison_common` could not be imported
unfoldable pub jwt_auth : Option TokenService → Option Credentials → Response Fields
jwt_auth none credentials = http_error 500 "unison-common not available for jwt verification"
jwt_auth (some tokens) credentials = do
  claims ← tokens.verify_token credentials
  active ← tokens.verify_with_auth_service credentials
  deny_if (not (truthy (get "valid" active))) 401 "principal session is inactive"
  let claims = active_claims (get "claims" active) claims
  user_of (tokens.context_from_claims claims "capability") claims

-- the `dep` of `make_auth_dependency`
unfoldable pub authenticate :
    Option TokenService → Option String → AuthConfig → Option Credentials → Response Fields
authenticate tokens environment auth credentials =
    if auth.mode == "disabled"
    then deny_if (not auth.unsafe_allow_no_auth) 500 "auth disabled but unsafe flag not set"
      >> reply (service_user "unauthenticated")
    else if auth.mode == "static_bearer"
    then static_bearer_auth environment auth credentials
    else if auth.mode == "unison_jwt"
    then jwt_auth tokens credentials
    else http_error 500 ("unsupported auth mode: " <> auth.mode)

-- The tiers that `make_authz_dependency` knows.
pub data Tier : Type 0 where
  read run admin_install admin_remove : Tier

abbrev pub tier_name : Tier → String
tier_name read = "read"
tier_name run = "run"
tier_name admin_install = "admin_install"
tier_name admin_remove = "admin_remove"

abbrev pub roles_required : AuthzConfig → Tier → List String
roles_required authz read = authz.read_roles
roles_required authz run = authz.run_roles
roles_required authz _ = authz.admin_roles

abbrev pub allowed_services : AuthzConfig → Tier → List String
allowed_services authz admin_install = authz.install_allowed_services
allowed_services authz admin_remove = authz.remove_allowed_services
allowed_services authz _ = []

module _ ⦃py : Python⦄ where
  abbrev pub role_texts : List Value → List String
  role_texts [] = []
  role_texts (v ∷ vs) = to_text v ∷ role_texts vs

  -- `[str(x) for x in (user.get("roles") or [])]`; `authenticate` gives the roles as a list
  unfoldable pub user_roles : Fields → List String
  user_roles user = role_texts (list_or_empty (get "roles" user))

  unfoldable pub username_of : Fields → String
  username_of user = text_or_empty (get "username" user)

  -- the `dep` of `make_authz_dependency`
  unfoldable pub authorize : AuthzConfig → Tier → Fields → Response Fields
  authorize authz tier user =
      if any (λ r. member r (user_roles user)) (roles_required authz tier)
      then reply user
      else if not (username_of user == "")
          && member (username_of user) (allowed_services authz tier)
      then reply user
      else http_error 403 ("insufficient permissions for " <> tier_name tier)

  -- The dependency of one tier as `SecurityDeps.from_config` chains it.
  unfoldable pub admit_tier :
      Option TokenService
      → Option String
      → AuthConfig
      → AuthzConfig
      → Tier
      → Option Credentials
      → Response Fields
  admit_tier tokens environment auth authz tier credentials =
      authenticate tokens environment auth credentials >>= authorize authz tier
