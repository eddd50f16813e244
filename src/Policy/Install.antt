-- ===== src/Policy/Install.antt =====
-- What `enforce_install` and `from_env` of src/policy.py guarantee.
use unison_capabilities.Base.{
  String, ◌≡◌, refl, ap, ◌↔◌, ◌⊎◌, inl, inr, true, false, none, List, [], ◌∷◌, arith, All, member,
  split_csv, eq_iff, Bool-cases,
}
use unison_capabilities.Value.{Value, Fields, obj, arr, items, Python, get, has, text_or_empty, str}
use unison_capabilities.Error.{ok}
use unison_capabilities.Policy.{
  CapabilityPolicy, PolicyEnv, env_or, env_truthy, from_env, enforce_install, check_secrets,
  check_secret_refs,
}

-- A secret of a manifest that names a stored value and does not hold one.
abbrev pub IsReference : Value → Type 0
IsReference (obj fs) = (has "ref" fs ≡ true) × (has "value" fs ≡ false)
IsReference _ = ⊥

-- What the `secrets` field may be: a list of references.
abbrev pub AreReferences : Value → Type 0
AreReferences (arr vs) = All IsReference (items vs)
AreReferences _ = ⊥

check_secret_refs_sound : (vs : List Value) → check_secret_refs vs ≡ ok tt → All IsReference vs
check_secret_refs_sound [] h = tt
check_secret_refs_sound (obj fs ∷ vs) h = (ground arith, check_secret_refs_sound vs (ground arith))
check_secret_refs_sound (v ∷ vs) h = cc

check_secret_refs_complete : (vs : List Value) → All IsReference vs → check_secret_refs vs ≡ ok tt
check_secret_refs_complete [] h = refl
check_secret_refs_complete (obj fs ∷ vs) (h, hs) = ground (arith, check_secret_refs_complete vs hs)
check_secret_refs_complete (v ∷ vs) (h, hs) = absurd h

check_secrets_iff : (v : Value) → (check_secrets v ≡ ok tt) ↔ AreReferences v
check_secrets_iff (arr vs) =
    (check_secret_refs_sound (items vs), check_secret_refs_complete (items vs))
check_secrets_iff _ = (λ h. cc, λ h. absurd h)

module _ ⦃py : Python⦄ where
  -- A manifest may be installed exactly when the policy lists its trust level and its secrets, if
  -- it has the field, are a list of references that hold no value.
  pub enforce_install_iff :
      (policy : CapabilityPolicy) (m : Fields)
      → (enforce_install policy m ≡ ok tt) ↔ (
          (member (text_or_empty (get "trust_level" m)) policy.trust_allow ≡ true)
          × ((has "secrets" m ≡ false) ⊎ AreReferences (get "secrets" m)))
  unfolding enforce_install
  enforce_install_iff policy m =
      let (sound, complete) = check_secrets_iff (get "secrets" m) in
      elim (Bool-cases (has "secrets" m)) [
        | inl present ↦ (
          λ h. (ground arith, inr (sound (ground arith))),
          λ (allowed, refs). elim refs [
            | inl missing ↦ cc
            | inr good ↦ ground (arith, complete good)
          ],
        )
        | inr absent ↦ (λ h. ground arith, λ h. ground arith)
      ]

-- The trust levels of the environment's policy: those of the list, `community` and `untrusted`
-- only if their flags are set as well.
pub from_env_iff :
    (env : PolicyEnv) (t : String)
    → (member t (from_env env).trust_allow ≡ true) ↔ (
        (member t (split_csv (env_or "local,verified" env.trust_allow_csv)) ≡ true)
        ⊎ ((t ≡ "community") × (env_truthy env.allow_community ≡ true))
        ⊎ ((t ≡ "untrusted") × (env_truthy env.allow_untrusted ≡ true)))
unfolding from_env member
from_env_iff env t = ground (arith, eq_iff t "community", eq_iff t "untrusted")

not_trusted :
    (env : PolicyEnv)
    → env.trust_allow_csv ≡ none
    → env_truthy env.allow_untrusted ≡ false
    → member "untrusted" (from_env env).trust_allow ≡ false
unfolding from_env member split_csv
not_trusted env unset off = rw (unset, off) (ground arith)

module _ ⦃py : Python⦄ where
  -- With no list in the environment and no flag for untrusted capabilities, no manifest of trust
  -- level `untrusted` may be installed, whatever else it says.
  pub untrusted_needs_flag :
      (env : PolicyEnv) (m : Fields)
      → env.trust_allow_csv ≡ none
      → env_truthy env.allow_untrusted ≡ false
      → get "trust_level" m ≡ str "untrusted"
      → ¬ (enforce_install (from_env env) m ≡ ok tt)
  unfolding enforce_install
  untrusted_needs_flag env m unset off trust h =
      let (allowed, _) = (enforce_install_iff (from_env env) m).0 h in
      let outside = not_trusted env unset off in
      let level = ap text_or_empty trust in cc (level, outside)
