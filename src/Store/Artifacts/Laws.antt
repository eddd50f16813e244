-- ===== src/Store/Artifacts/Laws.antt =====
-- The directories of src/store.py: what is put at one reference is read there and nowhere else.
use unison_capabilities.Base.{
  String, ◌≡◌, refl, inl, inr, Bool, true, ◌&&◌, none, some, [], ◌∷◌, arith, ◌==◌, eq_iff,
  Bool-cases, if◌then◌else◌, is_empty,
}
use unison_capabilities.Base.Dict
use unison_capabilities.Base.Dict.{Dict, lookup-insert, lookup-erase}
use unison_capabilities.Store.{CapabilityRef, Tree}
use unison_capabilities.Store.Artifacts.{versions_of, dir_at, put_dir, drop_dir}

abbrev pub same_ref : CapabilityRef → CapabilityRef → Bool
same_ref a b = a.capability_id == b.capability_id && a.version == b.version

module _ {A : Type 0} where
  versions_of-insert :
      (j k : String) (vs : Dict A) (t : Tree A)
      → versions_of j (Dict.insert k vs t) ≡ (if k == j then vs else versions_of j t)
  versions_of-insert j k vs t = ground (arith, lookup-insert j k vs t)

  versions_of-erase :
      (j k : String) (t : Tree A)
      → versions_of j (Dict.erase k t) ≡ (if k == j then [] else versions_of j t)
  versions_of-erase j k t = ground (arith, lookup-erase j k t)

  -- What is put at one reference is found there, and every other reference finds what it did.
  pub dir_at-put_dir :
      (r q : CapabilityRef) (dir : A) (t : Tree A)
      → dir_at q (put_dir r dir t) ≡ (if same_ref r q then some dir else dir_at q t)
  unfolding dir_at put_dir
  dir_at-put_dir r q dir t =
      rw versions_of-insert (elim (Bool-cases (r.capability_id == q.capability_id)) [
        | inl same ↦
            let key : r.capability_id ≡ q.capability_id = (eq_iff _ _).0 same in
            rw (same, lookup-insert, key) refl
        | inr other ↦ rw other refl
      ])

  is_empty-lookup : (k : String) (d : Dict A) → is_empty d ≡ true → Dict.lookup k d ≡ none
  is_empty-lookup k [] h = Dict.lookup-nil k
  is_empty-lookup k (x ∷ d) h = cc

  drop_cases :
      (r q : CapabilityRef) (t : Tree A) (left : Dict A)
      → left ≡ Dict.erase r.version (versions_of r.capability_id t)
      → Dict.lookup q.version (
          versions_of q.capability_id (
            if is_empty left
            then Dict.erase r.capability_id t
            else Dict.insert r.capability_id left t))
        ≡ (if same_ref r q then none else Dict.lookup q.version (versions_of q.capability_id t))
  drop_cases r q t left e = ground (
    arith,
    versions_of-insert q.capability_id r.capability_id left t,
    versions_of-erase q.capability_id r.capability_id t,
    is_empty-lookup q.version left,
    lookup-erase q.version r.version (versions_of r.capability_id t),
    eq_iff r.capability_id q.capability_id,
    eq_iff r.version q.version,
    Dict.lookup-nil {V = A} q.version,
  )

  -- Nothing is left at a reference that was dropped, and every other finds what it did.
  pub dir_at-drop_dir :
      (r q : CapabilityRef) (t : Tree A)
      → dir_at q (drop_dir r t) ≡ (if same_ref r q then none else dir_at q t)
  unfolding dir_at drop_dir
  dir_at-drop_dir r q t = ground (
    arith,
    drop_cases r q t (Dict.erase r.version (versions_of r.capability_id t)) refl,
    eq_iff r.capability_id q.capability_id,
    eq_iff r.version q.version,
  )
