-- ===== src/Tests/Guards.antt =====
-- The policy, the governance and the egress control on concrete inputs.
use unison_capabilities.Base.{
  String, ◌≡◌, refl, ◌↔◌, ◌⊎◌, true, false, none, some, [], ◌∷◌, member, strip, lower, ends_with,
  has_text, tail_text,
}
use unison_capabilities.Base.Dict
use unison_capabilities.Value.{
  Fields, nil, cons, end, field, obj, arr, str, get, has, at_most, exceeds, to_float, text_or_empty,
}
use unison_capabilities.Value.Compare.{in_set, intersects, contained, value_eq}
use unison_capabilities.Error.{ok, is_ok}
use unison_capabilities.Policy.{
  CapabilityPolicy, PolicyEnv, enforce_install, enforce_run, is_oauth_secret,
}
use unison_capabilities.Policy.Install.{enforce_install_iff, AreReferences}
use unison_capabilities.Policy.Run.{MayRun, enforce_run_sound}
use unison_capabilities.Governance.{
  validate_governance_manifest, authorize_execution, governance_of, require_all, check_bounds,
  check_authority, from_isoformat, is_revoked, fresh_guard, consume,
}
use unison_capabilities.Governance.Rules.{
  IsAuthorized, IsGoverned, authorize_execution_iff, validate_governance_manifest_iff,
}
use unison_capabilities.Governance.Replay.{consume_all, consume_iff}
use unison_capabilities.Egress.{
  UrlParts, EgressConfig, host_matches, url_prefix_matches, rule_matches, is_private_or_loopback,
  check_host, check_url, check_mode, enforce_manifest_network,
}
use unison_capabilities.Egress.Rules.{MayRequest, check_url_iff}
use unison_capabilities.Tests.Fixtures.{plain_python, two_urls, echo, mail, governed, authority}

-- what the checks of a manifest run through
checking : Unit {0}
unfolding enforce_install enforce_run is_oauth_secret get has Dict.lookup member
    validate_governance_manifest authorize_execution governance_of require_all check_bounds
    check_authority from_isoformat is_revoked in_set intersects contained value_eq at_most exceeds
    to_float
checking = tt

abbrev local_only : CapabilityPolicy
local_only = record { trust_allow = "local" ∷ [] }

enforce_install_tests :
    (enforce_install local_only echo ≡ ok tt) × (is_ok (enforce_install local_only mail) ≡ false)
unfolding checking
enforce_install_tests = (refl, refl)

enforce_install_iff_example : (enforce_install local_only echo ≡ ok tt) ↔ (
    (member (text_or_empty (get "trust_level" echo)) local_only.trust_allow ≡ true)
    × ((has "secrets" echo ≡ false) ⊎ AreReferences (get "secrets" echo)))
enforce_install_iff_example = enforce_install_iff local_only echo

abbrev no_env : PolicyEnv
no_env = record { trust_allow_csv = none; allow_community = some "true"; allow_untrusted = none }

abbrev stranger : Fields
stranger = field "trust_level" (str "untrusted") end

enforce_run_sound_example : MayRun mail (some "vdi_vpn")
unfolding checking
enforce_run_sound_example = enforce_run_sound mail (some "vdi_vpn") refl

authorize_execution_test : authorize_execution 5 ("rev-2" ∷ []) governed authority ≡ ok tt
unfolding checking
authorize_execution_test = refl

authorize_execution_expired : is_ok (authorize_execution 1000 [] governed authority) ≡ false
unfolding checking
authorize_execution_expired = refl

authorize_execution_iff_example :
    (authorize_execution 5 [] governed authority ≡ ok tt) ↔ IsAuthorized 5 [] governed authority
authorize_execution_iff_example = authorize_execution_iff 5 [] governed authority

consume_iff_example :
    (is_ok (consume "n" (consume_all ("m" ∷ "n" ∷ []) fresh_guard).1).0 ≡ true)
    ↔ (member "n" ("m" ∷ "n" ∷ []) ≡ false)
consume_iff_example = consume_iff ("m" ∷ "n" ∷ []) "n"

validate_governance_manifest_iff_example :
    (validate_governance_manifest governed ≡ ok governed) ↔ IsGoverned governed
validate_governance_manifest_iff_example = validate_governance_manifest_iff governed

abbrev one_host : EgressConfig
one_host = record {
  allowlist = "*.example.com" ∷ [];
  denylist = [];
  allow_private_networks = false;
}

abbrev api_url : String
api_url = "https://api.example.com/v1"

abbrev private_url : String
private_url = "http://10.0.0.7/"

-- what the egress checks run through
egress : Unit {0}
unfolding check_url check_host is_private_or_loopback rule_matches host_matches url_prefix_matches
    member strip lower ends_with has_text tail_text enforce_manifest_network check_mode get
    Dict.lookup
egress = tt

check_url_tests :
    (check_url one_host api_url ≡ ok tt)
    × (is_ok (check_url one_host private_url) ≡ false)
    × (host_matches "*.example.com" "API.example.com" ≡ true)
    × (host_matches "example.com" "badexample.com" ≡ false)
    × (rule_matches "https://api.example.com.evil.test/x" "api.example.com.evil.test"
          "https://api.example.com"
        ≡ true)
unfolding egress
check_url_tests = (refl, refl, refl, refl, refl)

check_url_iff_example : (check_url one_host api_url ≡ ok tt) ↔ MayRequest one_host api_url
check_url_iff_example = check_url_iff one_host api_url

abbrev named_host : String
named_host = "api.example.com"

abbrev allow_api : Fields
allow_api =
    field "permissions"
      (obj (
        field "network" (str "allowlist")
          (field "network_allowlist" (arr (cons (str "api.example.com") nil)) end)))
      end

abbrev api_parts : UrlParts
api_parts = record { scheme = "https"; hostname = "api.example.com" }
