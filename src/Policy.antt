-- ===== src/Policy.antt =====
-- src/policy.py: which manifests may be installed and which may run.
pub mod Install
pub mod Run
use unison_capabilities.Base.{
  String, ◌<>◌, Bool, true, false, not, ◌&&◌, ◌||◌, Option, none, some, List, [], ◌∷◌, any, strip,
  lower, upper, split_csv, starts_with, member, ◌==◌, if◌then◌else◌,
}
use unison_capabilities.Value.{
  Value, Fields, end, obj, Python, as_list, as_dict, get, has, is_true, is_false, list_or_empty,
  text_or_empty, truthy, as_text, null, bool, str, arr, num,
}
use unison_capabilities.Error.{Result, ok, err, policy_error, python_error, ◌>>=◌, ◌>>◌, raise_if}

-- `value or ""` of an environment variable
abbrev pub env_or : String → Option String → String
env_or default none = default
env_or default (some s) = s

unfoldable pub env_truthy : Option String → Bool
env_truthy value = member (lower (strip (env_or "" value))) ("1" ∷ "true" ∷ "yes" ∷ "on" ∷ [])

pub record CapabilityPolicy : Type 0 where
  pub trust_allow : List String

-- The three variables that `from_env` reads.
pub record PolicyEnv : Type 0 where
  pub trust_allow_csv : Option String
  pub allow_community : Option String
  pub allow_untrusted : Option String

-- A set is a list of which only membership is read.
unfoldable pub from_env : PolicyEnv → CapabilityPolicy
from_env env =
    let base = split_csv (env_or "local,verified" env.trust_allow_csv) in
    let with_community = if env_truthy env.allow_community then "community" ∷ base else base in
    record {
      trust_allow =
          if env_truthy env.allow_untrusted then "untrusted" ∷ with_community else with_community;
    }

-- `isinstance(s, dict) and "ref" in s and "value" not in s`
abbrev pub is_reference : Value → Bool
is_reference (obj fs) = has "ref" fs && not (has "value" fs)
is_reference _ = false

abbrev pub check_secret_refs : List Value → Result (Unit {0})
check_secret_refs [] = ok tt
check_secret_refs (s ∷ rest) = do
  raise_if (not (is_reference s)) (policy_error "secrets must be references only (no values)")
  check_secret_refs rest

abbrev pub check_secrets : Value → Result (Unit {0})
check_secrets v = elim (as_list v) [
  | none ↦ err (policy_error "secrets must be a list of references")
  | some secrets ↦ check_secret_refs secrets
]

-- `isinstance(s, dict) and str(s.get("name") or "").upper().startswith("OAUTH_")`
unfoldable pub is_oauth_secret : ⦃py : Python⦄ → Value → Bool
is_oauth_secret (obj fs) = starts_with (upper (text_or_empty (get "name" fs))) "OAUTH_"
is_oauth_secret _ = false

-- `(v or {}).get(key)`: a value that is true and no dict has no `get`
abbrev pub get_in : String → Value → Result Value
get_in key (obj fs) = ok (get key fs)
get_in key v = if truthy v then err (python_error "AttributeError") else ok null

-- `declared in {"programmatic", "vdi_vpn"}`; a list or a dict cannot be looked up in a set
abbrev pub bound_channel : Value → Result (Option String)
bound_channel (str s) = ok (if member s ("programmatic" ∷ "vdi_vpn" ∷ []) then some s else none)
bound_channel (arr vs) = err (python_error "TypeError")
bound_channel (obj fs) = err (python_error "TypeError")
bound_channel _ = ok none

-- `if declared … and requested_channel and requested_channel != declared: raise`
abbrev pub check_channel : Option String → Option String → Result (Unit {0})
check_channel (some declared) (some requested) =
    raise_if (not (requested == "") && not (requested == declared)) (
      policy_error
        ("execution channel mismatch: declared=" <> declared <> " requested=" <> requested))
check_channel _ _ = ok tt

module _ ⦃py : Python⦄ where
  unfoldable pub enforce_install : CapabilityPolicy → Fields → Result (Unit {0})
  enforce_install policy manifest = do
    let trust = text_or_empty (get "trust_level" manifest)
    raise_if (not (member trust policy.trust_allow))
        (policy_error ("trust_level not allowed by policy: " <> trust))
    if has "secrets" manifest then check_secrets (get "secrets" manifest) else ok tt

  unfoldable pub enforce_run : Fields → Option String → Result (Unit {0})
  enforce_run manifest requested_channel = do
    raise_if (is_false (get "enabled" manifest)) (policy_error "capability disabled")
    raise_if
        (is_true (get "requires_oauth" manifest)
          && not (any is_oauth_secret (list_or_empty (get "secrets" manifest))))
        (policy_error "capability requires oauth onboarding")
    channel ← get_in "channel" (get "execution" manifest)
    declared ← bound_channel channel
    check_channel declared requested_channel
