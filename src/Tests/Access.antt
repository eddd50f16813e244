-- ===== src/Tests/Access.antt =====
-- The service's security, the targets and the supply chain on concrete inputs.
use unison_capabilities.Base.{
  ◌<◌, String, ◌<>◌, ◌≡◌, refl, ◌↔◌, true, false, ◌+◌, Option, none, some, [], ◌∷◌, member, lower,
}
use unison_capabilities.Base.Dict
use unison_capabilities.Value.{Fields, nil, cons, end, field, obj, arr, str, get, has}
use unison_capabilities.Value.Compare.{value_eq}
use unison_capabilities.Error.{ok, is_ok}
use unison_capabilities.Security.{
  reply, AuthConfig, AuthzConfig, Credentials, TokenService, admin_install, dispatch, service_user,
  static_bearer_auth, authenticate, authorize,
}
use unison_capabilities.Security.Access.{
  is_production, SentToken, static_bearer_sound, MayUseTier, tier_iff,
}
use unison_capabilities.Targets
use unison_capabilities.Targets.{Signing, TargetBinding, bind}
use unison_capabilities.Targets.Binding.{Authorizes, authorize_iff, authorize-bind}
use unison_capabilities.Ecosystem.{
  insert_text, sorted_difference, values_of, diff_fields, permission_diff,
  require_permission_review, governance_dict, RevocationRegistry,
}
use unison_capabilities.Ecosystem.Rules.{KeepsPermissions, review_iff}
use unison_capabilities.Tests.Fixtures.{plain_python, two_urls}

abbrev bearer : AuthConfig
bearer = record {
  mode = "static_bearer";
  static_bearer_token = some "t-1";
  unsafe_allow_no_auth = false;
}

abbrev sent : Option Credentials
sent = some (record { scheme = "Bearer"; credentials = "t-1" })

security : Unit {0}
unfolding authenticate static_bearer_auth lower member dispatch
security = tt

static_bearer_sound_example :
    (is_production none ≡ false)
    × SentToken bearer sent
    × (service_user "static-bearer" ≡ service_user "static-bearer")
unfolding security
static_bearer_sound_example =
    static_bearer_sound none none bearer sent (service_user "static-bearer") refl refl

abbrev no_tokens : Option TokenService
no_tokens = none

abbrev roles : AuthzConfig
roles = record {
  read_roles = "service" ∷ [];
  run_roles = "service" ∷ [];
  admin_roles = "admin" ∷ [];
  install_allowed_services = "service-orchestrator" ∷ [];
  remove_allowed_services = [];
}

abbrev orchestrator : Fields
orchestrator = service_user "service-orchestrator"

tier_iff_example :
    (authorize roles admin_install orchestrator ≡ reply orchestrator)
    ↔ ((orchestrator ≡ orchestrator) × MayUseTier roles admin_install orchestrator)
tier_iff_example = tier_iff roles admin_install orchestrator orchestrator

-- the targets

abbrev signing : Signing
signing = record { secret_length = 32; hexdigest = λ p. p.target_id <> p.person_id }

abbrev door : TargetBinding
door = bind signing 100 "lock" "door" "ann" "v1" 60

target_tests :
    (Targets.authorize signing 159 door "lock" "ann" "v1" ≡ ok tt)
    × (is_ok (Targets.authorize signing 160 door "lock" "ann" "v1") ≡ false)
    × (is_ok (Targets.authorize signing 120 door "lock" "bob" "v1") ≡ false)
unfolding Targets.authorize bind
target_tests = (refl, refl, refl)

authorize_iff_example :
    (Targets.authorize signing 120 door "lock" "ann" "v1" ≡ ok tt)
    ↔ Authorizes signing 120 door "lock" "ann" "v1"
authorize_iff_example = authorize_iff signing 120 door "lock" "ann" "v1"

authorize-bind_example :
    (Targets.authorize signing 120 door "lock" "ann" "v1" ≡ ok tt) ↔ (120 < 100 + 60)
authorize-bind_example = authorize-bind signing "lock" "door" "ann" "v1" 100 120 60

-- the supply chain

abbrev acting : String → Fields
acting action = field "governance" (obj (field "actions" (arr (cons (str action) nil)) end)) end

review : Unit {0}
unfolding require_permission_review permission_diff diff_fields values_of sorted_difference
    insert_text value_eq get has Dict.lookup member
review = tt

review_tests :
    (require_permission_review (acting "read") (acting "read") false ≡ ok tt)
    × (is_ok (require_permission_review (acting "read") (acting "write") false) ≡ false)
    × (require_permission_review (acting "read") (acting "write") true ≡ ok tt)
unfolding review
review_tests = (refl, refl, refl)

review_iff_example :
    (require_permission_review (acting "read") (acting "write") false ≡ ok tt)
    ↔ KeepsPermissions (governance_dict (acting "read")) (governance_dict (acting "write"))
review_iff_example = review_iff (acting "read") (acting "write")

abbrev none_revoked : RevocationRegistry
none_revoked = record { revoked = [] }

abbrev rev_1 : RevocationRegistry
rev_1 = record { revoked = "rev-1" ∷ [] }
