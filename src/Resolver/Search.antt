-- ===== src/Resolver/Search.antt =====
-- The search and the resolution of src/resolver.py.
use unison_capabilities.Base.{
  String, ◌≡◌, ◌≢◌, refl, ap, ◌∙◌, inl, inr, Bool, true, false, ◌&&◌, List, [], ◌∷◌, ◌++◌, arith,
  any, keep_if, ◌==◌, eq_iff, Bool-cases, All,
}
use unison_capabilities.Base.Dict.{Dict}
use unison_capabilities.Value.{
  Value, Fields, obj, arr, cons, items, Python, get, dict_or_empty, text_or_empty,
}
use unison_capabilities.Error.{ok, is_ok}
use unison_capabilities.Schema.{Validator}
use unison_capabilities.Policy.{CapabilityPolicy}
use unison_capabilities.Discovery.{Hashing, Candidate, sort_by_score}
use unison_capabilities.Discovery.Order.{IsRanked, sort-IsRanked, sort_any}
use unison_capabilities.Store.{CapabilityStore, merged_catalog}
use unison_capabilities.Resolver.{
  Setup, search, constrain, is_trusted, is_eligible, first_eligible, choose, resolve, resolve_step,
  texts, catalog_candidates, registry_candidates,
}

-- The candidate `c` stands in the list after some that are not eligible.
abbrev pub IsFirst : (Candidate → Bool) → Candidate → List Candidate → Type 0
IsFirst p c cs =
    (before : List Candidate) × ((after : List Candidate) × (cs ≡ before ++ (c ∷ after)))
    × All (λ d. p d ≡ false) before
    × (p c ≡ true)

module _ ⦃py : Python⦄ where
  first_eligible_lem :
      (policy : CapabilityPolicy) (intent : String) (cs : List Candidate) (c : Candidate)
      → first_eligible policy intent cs ≡ ok c
      → IsFirst (is_eligible policy) c cs
  unfolding first_eligible
  first_eligible_lem policy intent [] c h = cc
  first_eligible_lem policy intent (d ∷ ds) c h = elim (Bool-cases (is_eligible policy d)) [
    | inl here ↦ let same : d ≡ c = ground arith in rw (← same) (([], (ds, refl), tt, here))
    | inr other ↦
        let (before, (after, split), rejected, good) =
          first_eligible_lem policy intent ds c (ground arith) in
        (d ∷ before, (after, ap (λ x. d ∷ x) split), (other, rejected), good)
  ]

  -- Nothing is passed over: without an eligible candidate there is an error, with one a result.
  first_eligible_total :
      (policy : CapabilityPolicy) (intent : String) (cs : List Candidate)
      → is_ok (first_eligible policy intent cs) ≡ any (is_eligible policy) cs
  unfolding first_eligible
  first_eligible_total policy intent [] = refl
  first_eligible_total policy intent (d ∷ ds) =
      ground (arith, first_eligible_total policy intent ds)

  choose_lem :
      (policy : CapabilityPolicy) (intent : String) (cs : List Candidate) (c : Candidate)
      → choose policy intent cs ≡ ok c
      → IsFirst (is_eligible policy) c cs
  choose_lem policy intent [] c h = cc
  choose_lem policy intent (d ∷ ds) c h = first_eligible_lem policy intent (d ∷ ds) c h

  choose_total :
      (policy : CapabilityPolicy) (intent : String) (cs : List Candidate)
      → is_ok (choose policy intent cs) ≡ any (is_eligible policy) cs
  choose_total policy intent [] = refl
  choose_total policy intent (d ∷ ds) = first_eligible_total policy intent (d ∷ ds)

  -- the test that `constraints.trust_allow` puts on a candidate
  abbrev pub allowed_by : Value → Candidate → Bool
  allowed_by (arr (cons v vs)) c = is_trusted (texts (v ∷ items vs)) c
  allowed_by v c = true

  keep_any :
      (q p : Candidate → Bool) (cs : List Candidate)
      → any p (keep_if q cs) ≡ any (λ c. q c && p c) cs
  keep_any q p [] = refl
  keep_any q p (c ∷ cs) = ground (arith, keep_any q p cs)

  any-constrain :
      (v : Value) (p : Candidate → Bool) (cs : List Candidate)
      → any p (constrain v cs) ≡ any (λ c. allowed_by v c && p c) cs
  unfolding constrain
  any-constrain (arr (cons v vs)) p cs = keep_any (is_trusted (texts (v ∷ items vs))) p cs
  any-constrain v p cs = refl

module _ ⦃py : Python⦄ ⦃validator : Validator⦄ ⦃hash : Hashing⦄ where
  abbrev pub all_candidates : Setup → String → Fields → Dict Fields → List Candidate
  all_candidates setup intent constraints merged =
      catalog_candidates intent merged ++ registry_candidates intent constraints setup.registries

  -- Where the catalogs can be read, a search returns. No later candidate has a higher score than
  -- an earlier one, and the result holds exactly the candidates of the merged view and of the
  -- adapters that did not raise whose trust level `constraints.trust_allow` lets through: some
  -- candidate of the result passes a test exactly when one of those does. The store stays.
  pub search_lem :
      (setup : Setup) (intent : String) (constraints : Fields) (s : CapabilityStore)
      (d : Dict Fields)
      → merged_catalog s ≡ (ok d, s)
      → (cs : List Candidate) × (search setup intent constraints s ≡ (ok cs, s))
        × IsRanked cs
        × ((p : Candidate → Bool)
            → any p cs
              ≡ any
                  (λ c. allowed_by (get "trust_allow" constraints) c && p c)
                  (all_candidates setup intent constraints d))
  unfolding search
  search_lem setup intent constraints s d h =
      let found = all_candidates setup intent constraints d in
      let trust = get "trust_allow" constraints in
      (
        sort_by_score (constrain trust found),
        rw h refl,
        sort-IsRanked (constrain trust found),
        λ p. sort_any p (constrain trust found) ∙ any-constrain trust p found,
      )

  -- What `resolve` returns is the first of the ranked candidates of the step's intent that comes
  -- from the catalog or whose installation the policy allows; it raises exactly when there is no
  -- such candidate. The store stays.
  pub resolve_lem :
      (setup : Setup) (step : Fields) (s : CapabilityStore) (d : Dict Fields)
      → merged_catalog s ≡ (ok d, s)
      → text_or_empty (get "intent" step) ≢ ""
      → (cs : List Candidate) × (search setup
            (text_or_empty (get "intent" step))
            (dict_or_empty (get "constraints" step))
            s
          ≡ (ok cs, s))
        × (is_ok (resolve setup (obj step) s).0 ≡ any (is_eligible setup.policy) cs)
        × ((c : Candidate)
            → (resolve setup (obj step) s).0 ≡ ok c
            → IsFirst (is_eligible setup.policy) c cs)
        × ((resolve setup (obj step) s).1 ≡ s)
  unfolding resolve_step
  resolve_lem setup step s d h named =
      let intent = text_or_empty (get "intent" step) in
      let nonempty : (intent == "") ≡ false = ground (arith, eq_iff intent "") in
      let (cs, found, _, _) =
        search_lem setup intent (dict_or_empty (get "constraints" step)) s d h in
      (
        cs,
        found,
        rw (nonempty, found) (choose_total setup.policy intent cs),
        λ c e. choose_lem setup.policy intent cs c (rw (nonempty, found) at e),
        rw (nonempty, found) refl,
      )
