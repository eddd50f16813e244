-- ===== src/Ecosystem/Rules.antt =====
-- What the review and the revocation of src/ecosystem.py decide.
use unison_capabilities.Base.{
  String, ◌≡◌, refl, ◌↔◌, true, false, not, ◌&&◌, ◌||◌, List, [], ◌∷◌, ◌++◌, arith, ◌==◌, eq_iff,
  member, All,
}
use unison_capabilities.Value.{Fields, obj, str, get, Python}
use unison_capabilities.Value.Compare.{in_set, value_eq}
use unison_capabilities.Error.{Result, ok, is_ok, bind-eq-ok}
use unison_capabilities.Ecosystem.{
  insert_text, sorted_difference, RevocationRegistry, discard, revoke, restore, require_active,
  governance_dict, values_of, diff_fields, permission_diff, permission_fields, changed, prefixed,
  Diff, require_permission_review,
}

member-insert_text :
    (x s : String) (ts : List String) → member x (insert_text s ts) ≡ (x == s || member x ts)
unfolding insert_text member
member-insert_text x s [] = refl
member-insert_text x s (t ∷ ts) = ground (arith, eq_iff s t, member-insert_text x s ts)

-- The lines that a review reports are the new values that the old ones lack.
pub member-sorted_difference :
    (x : String) (new old : List String)
    → member x (sorted_difference new old) ≡ (member x new && not (member x old))
unfolding sorted_difference member
member-sorted_difference x [] old = refl
member-sorted_difference x (s ∷ new) old =
    let rest = member-sorted_difference x new old in
    let here = member-insert_text x s (sorted_difference new old) in
    ground (arith, eq_iff x s, rest, here)

member-discard :
    (x s : String) (ts : List String) → member x (discard s ts) ≡ (member x ts && not (x == s))
unfolding discard member
member-discard x s [] = refl
member-discard x s (t ∷ ts) =
    ground (arith, eq_iff s t, eq_iff x s, eq_iff x t, member-discard x s ts)

no_members : (ts : List String) → ((x : String) → member x ts ≡ false) → ts ≡ []
unfolding member
no_members [] h = refl
no_members (t ∷ ts) h = ground (arith, h t, eq_iff t t)

-- The new values of a field are all among the old ones.
abbrev pub IsSubset : List String → List String → Type 0
IsSubset new old = (x : String) → member x new ≡ true → member x old ≡ true

sorted_difference_iff :
    (new old : List String) → (sorted_difference new old ≡ []) ↔ IsSubset new old
unfolding member
sorted_difference_iff new old = (
  λ h x here.
      let m = member-sorted_difference x new old in
      let gone : member x (sorted_difference new old) ≡ false = rw h refl in
      ground (arith, m, gone, here),
  λ h.
      no_members (sorted_difference new old)
        (λ x. ground (arith, member-sorted_difference x new old, h x)),
)

module _ ⦃py : Python⦄ where
  -- Both manifests' values of a field can be read, and the new ones are among the old ones.
  pub record NoGrowth (before after : Fields) (name : String) : Type 0 where
    pub old : List String
    pub new : List String
    pub read_old : values_of name before ≡ ok old
    pub read_new : values_of name after ≡ ok new
    pub subset : IsSubset new old

  abbrev NothingAdded : Result Diff → Type 0
  NothingAdded r = (d : Diff) × (r ≡ ok d) × (d.added ≡ [])

  none_prefixed : (name : String) (ts : List String) → prefixed name ts ≡ [] → ts ≡ []
  none_prefixed name [] h = refl
  none_prefixed name (t ∷ ts) h = cc

  both_empty : (xs ys : List String) → xs ++ ys ≡ [] → (xs ≡ []) × (ys ≡ [])
  both_empty [] ys h = (refl, h)
  both_empty (x ∷ xs) ys h = cc

  diff_fields_sound :
      (names : List String) (before after : Fields)
      → NothingAdded (diff_fields names before after)
      → All (NoGrowth before after) names
  unfolding diff_fields
  diff_fields_sound [] before after h = tt
  diff_fields_sound (name ∷ names) before after (d, h, empty) =
      let (old, read_old, on) = bind-eq-ok (values_of name before) _ h in
      let (new, read_new, next) = bind-eq-ok (values_of name after) _ on in
      let (rest, ran, same) = bind-eq-ok (diff_fields names before after) _ next in
      let lines : prefixed name (sorted_difference new old) ++ rest.added ≡ [] =
        ground (arith, same, empty) in
      let (here, later) = both_empty (prefixed name (sorted_difference new old)) rest.added lines in
      let none = none_prefixed name (sorted_difference new old) here in
      (
        record {
          old = old;
          new = new;
          read_old = read_old;
          read_new = read_new;
          subset = (sorted_difference_iff new old).0 none;
        },
        diff_fields_sound names before after (rest, ran, later),
      )

  diff_fields_complete :
      (names : List String) (before after : Fields)
      → All (NoGrowth before after) names
      → NothingAdded (diff_fields names before after)
  unfolding diff_fields
  diff_fields_complete [] before after h = (record { added = []; removed = [] }, refl, refl)
  diff_fields_complete (name ∷ names) before after (g, gs) =
      let (d, ran, empty) = diff_fields_complete names before after gs in
      let none = (sorted_difference_iff g.new g.old).1 g.subset in
      (
        record {
          added = prefixed name (sorted_difference g.new g.old) ++ d.added;
          removed = prefixed name (sorted_difference g.old g.new) ++ d.removed;
        },
        rw (g.read_old, g.read_new, ran) refl,
        rw (none, empty) refl,
      )

  -- The update from one governance to another adds no value to a field and changes neither the risk
  -- nor the confirmation.
  pub record KeepsPermissions (before after : Fields) : Type 0 where
    pub fields : All (NoGrowth before after) permission_fields
    pub risk : value_eq (get "risk" before) (get "risk" after) ≡ true
    pub confirmation : value_eq (get "confirmation" before) (get "confirmation" after) ≡ true

  changed_iff :
      (name : String) (before after : Fields)
      → (changed name before after ≡ []) ↔ (value_eq (get name before) (get name after) ≡ true)
  changed_iff name before after = (λ h. ground arith, λ h. ground arith)

  -- Without approval an update passes the review exactly when it keeps the permissions.
  pub review_iff :
      (previous candidate : Fields)
      → (require_permission_review previous candidate false ≡ ok tt)
        ↔ KeepsPermissions (governance_dict previous) (governance_dict candidate)
  unfolding require_permission_review permission_diff
  review_iff previous candidate =
      let before = governance_dict previous in
      let after = governance_dict candidate in
      let risk = changed_iff "risk" before after in
      let confirmation = changed_iff "confirmation" before after in
      (
        λ h.
            let (d, ran, passed) = bind-eq-ok (permission_diff previous candidate) _ h in
            let (f, fields, whole) =
              bind-eq-ok (diff_fields permission_fields before after) _ ran in
            let nothing : d.added ≡ [] = ground (arith, passed) in
            let lines : f.added
                  ++ (changed "risk" before after ++ changed "confirmation" before after)
                ≡ [] =
              ground (arith, whole, nothing) in
            let (one, two) = both_empty f.added _ lines in
            let (r, c) = both_empty (changed "risk" before after) _ two in
            record {
              fields = diff_fields_sound permission_fields before after (f, fields, one);
              risk = risk.0 r;
              confirmation = confirmation.0 c;
            },
        λ k.
            let (f, ran, empty) = diff_fields_complete permission_fields before after k.fields in
            rw (ran, empty, k.risk, k.confirmation) refl,
      )

-- An identity that was revoked is refused, one that was restored is let through, and the others are
-- treated as before.
pub revocation_lem :
    (m g : Fields) (i id : String) (r r' : RevocationRegistry)
    → get "governance" m ≡ obj g
    → get "revocation_id" g ≡ str i
    → revoke id r ≡ ok r'
    → (is_ok (require_active m r') ≡ (not (i == id) && is_ok (require_active m r)))
      × (is_ok (require_active m (restore id r)) ≡ (i == id || is_ok (require_active m r)))
unfolding require_active revoke restore in_set member
revocation_lem m g i id r r' held named done =
    let kept = member-discard i id r.revoked in
    let same = eq_iff i id in
    (rw (held, named) (ground (arith, done, same)), rw (held, named) (ground (arith, kept, same)))
