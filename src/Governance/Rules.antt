-- ===== src/Governance/Rules.antt =====
-- What the checks of src/governance.py guarantee to a run that they let through.
use unison_capabilities.Base.{
  ℕ, ◌*◌, ◌^◌, ◌≤◌, ◌<◌, String, ◌≡◌, ◌≢◌, refl, ◌↔◌, inl, inr, Bool, true, false, List, [], ◌∷◌,
  arith, All, Bool-cases,
}
use unison_capabilities.Value.{
  Number, decimal, nan, Fields, Python, obj, get, has, is_text, truthy, to_float, at_most, exceeds,
}
use unison_capabilities.Value.Compare.{in_set, intersects, contained}
use unison_capabilities.Error.{Result, ok, err}
use unison_capabilities.Governance.{
  governance_v1, required_manifest_fields, required_authority, forbidden, check_bounds,
  check_authority, validate_governance_manifest, authorize_execution, from_isoformat, is_revoked,
  governance_of, require_all,
}

require_all-cons :
    (present : String → Bool) (k : String) (ks : List String) (text : String)
    → present k ≡ true
    → require_all present (k ∷ ks) text ≡ require_all present ks text
unfolding require_all
require_all-cons present k ks text here = rw here

require_all_missing :
    (present : String → Bool) (k : String) (ks : List String) (text : String)
    → present k ≡ false
    → require_all present (k ∷ ks) text ≢ ok tt
unfolding require_all
require_all_missing present k ks text gone = rw gone (λ h. cc)

-- The early `raise` is passed exactly when every name is there.
pub require_all_iff :
    (present : String → Bool) (ks : List String) (text : String)
    → (require_all present ks text ≡ ok tt) ↔ All (λ k. present k ≡ true) ks
unfolding require_all
require_all_iff present [] text = (λ h. tt, λ h. refl)
require_all_iff present (k ∷ ks) text =
    let (sound, complete) = require_all_iff present ks text in
    elim (Bool-cases (present k)) [
      | inl here ↦ (
        λ h. (here, sound (rw (require_all-cons present k ks text here) at h)),
        λ (_, h). rw (require_all-cons present k ks text here) (complete h),
      )
      | inr gone ↦ (λ h. absurd (require_all_missing present k ks text gone h), λ (here, _). cc)
    ]

governance_of_iff :
    (m g : Fields)
    → (governance_of m ≡ ok g)
      ↔ ((is_text governance_v1 (get "governance_version" m) ≡ true) × (get "governance" m ≡ obj g))
unfolding governance_of
governance_of_iff m g = ground arith

-- A number in the bounded range, or `nan`.
abbrev pub InRange : Result Number → Type 0
InRange (ok t) = (at_most t 0 ≡ false) × (exceeds t 300 ≡ false)
InRange (err e) = ⊥

-- An instant that was read and lies after `now`.
abbrev pub IsAfter : ℕ → Result ℕ → Type 0
IsAfter now (ok t) = now < t
IsAfter now (err e) = ⊥

module _ ⦃py : Python⦄ where
  -- The governance that the checks accept.
  pub record IsBounded (g : Fields) : Type 0 where
    pub complete : All (λ k. has k g ≡ true) required_manifest_fields
    pub location :
        in_set (get "execution_location" g) ("device" ∷ "sandboxed-container" ∷ []) ≡ ok true
    pub risk : in_set (get "risk" g) ("low" ∷ "medium" ∷ "high" ∷ "critical" ∷ []) ≡ ok true
    pub timeout : InRange (to_float (get "timeout_seconds" g))
    pub files : intersects forbidden (get "filesystem" g) ≡ ok false
    pub network : intersects forbidden (get "egress" g) ≡ ok false
    pub signed : truthy (get "signature" g) ≡ true
    pub revocable : truthy (get "revocation_id" g) ≡ true

  check_bounds_sound :
      (g : Fields)
      → All (λ k. has k g ≡ true) required_manifest_fields
      → check_bounds g ≡ ok tt
      → IsBounded g
  unfolding check_bounds
  check_bounds_sound g full h = record {
    complete = full;
    location = ground arith;
    risk = ground arith;
    timeout = ground arith;
    files = ground arith;
    network = ground arith;
    signed = ground arith;
    revocable = ground arith;
  }

  check_bounds_complete : (g : Fields) → IsBounded g → check_bounds g ≡ ok tt
  unfolding check_bounds
  check_bounds_complete g b = ground (arith, b.location, b.risk, b.timeout, b.files, b.network)

  -- A manifest of the known version whose governance is within the bounds.
  pub record IsGoverned (m : Fields) : Type 0 where
    pub version : is_text governance_v1 (get "governance_version" m) ≡ true
    pub governance : Fields
    pub held : get "governance" m ≡ obj governance
    pub bounded : IsBounded governance

  -- The checks accept exactly the manifests of the known version whose governance is complete and
  -- bounded: place and risk known, timeout in range or `nan`, no broad files or network, signed,
  -- revocable. What they return is the manifest.
  pub validate_governance_manifest_iff :
      (m : Fields) → (validate_governance_manifest m ≡ ok m) ↔ IsGoverned m
  unfolding validate_governance_manifest
  validate_governance_manifest_iff m = (
    λ h.
        let (g, of) : (g : Fields) × (governance_of m ≡ ok g) = ground arith in
        let full : require_all (λ k. has k g) required_manifest_fields
              "incomplete capability governance: "
            ≡ ok tt =
          ground arith in
        let (version, held) = (governance_of_iff m g).0 of in
        record {
          version = version;
          governance = g;
          held = held;
          bounded = check_bounds_sound g ((require_all_iff _ _ _).0 full) (ground arith);
        },
    λ g.
        rw
          (
            (governance_of_iff m g.governance).1 (g.version, g.held),
            (require_all_iff (λ k. has k g.governance) _ _).1 g.bounded.complete,
            check_bounds_complete g.governance g.bounded,
          )
          refl,
  )

  -- The authority of a run that the checks let through at time `now`.
  pub record IsAuthorized (now : ℕ) (revoked : List String) (m a : Fields) : Type 0 where
    pub governed : IsGoverned m
    pub complete : All (λ k. truthy (get k a) ≡ true) required_authority
    pub allowed : is_text "allow" (get "outcome" a) ≡ true
    pub declared : contained (get "action" a) (get "actions" governed.governance) ≡ ok true
    pub unexpired : IsAfter now (from_isoformat (get "expires_at" a))
    pub unrevoked : is_revoked revoked (get "revocation_id" governed.governance) ≡ ok false

  check_authority_sound :
      (now : ℕ) (revoked : List String) (m a : Fields) (g : IsGoverned m)
      → All (λ k. truthy (get k a) ≡ true) required_authority
      → check_authority now revoked g.governance a ≡ ok tt
      → IsAuthorized now revoked m a
  unfolding check_authority
  check_authority_sound now revoked m a g full h = record {
    governed = g;
    complete = full;
    allowed = ground arith;
    declared = ground arith;
    unexpired = ground arith;
    unrevoked = ground arith;
  }

  check_authority_complete :
      (now : ℕ) (revoked : List String) (m a : Fields) (d : IsAuthorized now revoked m a)
      → check_authority now revoked d.governed.governance a ≡ ok tt
  unfolding check_authority
  check_authority_complete now revoked m a d =
      ground (arith, d.allowed, d.declared, d.unexpired, d.unrevoked)

  validate_returns :
      (m m' : Fields)
      → validate_governance_manifest m ≡ ok m'
      → validate_governance_manifest m ≡ ok m
  unfolding validate_governance_manifest
  validate_returns m m' h = ground arith

  -- A run is authorized exactly when its manifest is governed and its authority is complete: the
  -- decision is `allow`, the governance declares the action, the expiry lies after `now`, and the
  -- revocation identity is not in the given set.
  pub authorize_execution_iff :
      (now : ℕ) (revoked : List String) (m a : Fields)
      → (authorize_execution now revoked m a ≡ ok tt) ↔ IsAuthorized now revoked m a
  unfolding authorize_execution
  authorize_execution_iff now revoked m a = (
    λ h.
        let (m', valid) : (m' : Fields) × (validate_governance_manifest m ≡ ok m') = ground arith in
        let g = (validate_governance_manifest_iff m).0 (validate_returns m m' valid) in
        let full : require_all (λ k. truthy (get k a)) required_authority
              "incomplete execution authority: "
            ≡ ok tt =
          ground arith in
        check_authority_sound now revoked m a g ((require_all_iff _ _ _).0 full)
          (ground (arith, g.held)),
    λ d.
        rw
          (
            (validate_governance_manifest_iff m).1 d.governed,
            (require_all_iff (λ k. truthy (get k a)) _ _).1 d.complete,
            d.governed.held,
          )
          (check_authority_complete now revoked m a d),
  )

-- A finite number above 0 and at most 300; `nan` is let through, although it bounds nothing.
abbrev pub IsTimeout : Number → Type 0
IsTimeout (decimal false n p) = (0 < n) × (n ≤ 300 * 10 ^ p)
IsTimeout nan = Unit
IsTimeout _ = ⊥

InRange-iff : (t : Number) → InRange (ok t) ↔ IsTimeout t
unfolding at_most exceeds
InRange-iff (decimal true n p) = (λ h. cc, λ h. absurd h)
InRange-iff (decimal false n p) = ground arith
InRange-iff nan = ground arith
InRange-iff _ = (λ h. cc, λ h. absurd h)

module _ ⦃py : Python⦄ where
  -- The timeout of an accepted governance is a finite number above 0 and at most 300, or `nan`.
  pub accepted-IsTimeout :
      (m : Fields) (t : Number) (g : Fields)
      → validate_governance_manifest m ≡ ok m
      → get "governance" m ≡ obj g
      → to_float (get "timeout_seconds" g) ≡ ok t
      → IsTimeout t
  accepted-IsTimeout m t g h held read =
      let v = (validate_governance_manifest_iff m).0 h in
      let same : v.governance ≡ g = cc (v.held, held) in
      let range : InRange (to_float (get "timeout_seconds" g)) = rw same at v.bounded.timeout in
      (InRange-iff t).0 (rw read at range)
