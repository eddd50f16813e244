-- ===== src/Installer/Atomic.antt =====
-- An installation of src/installer.py is all or nothing, wherever the disk raises.
use unison_capabilities.Base.{
  String, ◌≡◌, ◌≢◌, refl, sym, ap, subst, ◌∙◌, ◌⊎◌, inl, inr, true, false, ◌||◌, Option, none, some,
  [], arith, ◌==◌, eq_refl, Bool-cases, Option-cases,
}
use unison_capabilities.Base.Dict
use unison_capabilities.Base.Dict.{lookup-insert, lookup-erase}
use unison_capabilities.Base.Dict.Update.{insert-insert}
use unison_capabilities.Value.{Fields, Python}
use unison_capabilities.Error.{Result, ok, err, is_ok, Result-cases, python_error}
use unison_capabilities.Exec.Within.{Preorder, Within, Within-pure, Within-raise, within_rules}
use unison_capabilities.Exec.{continue}
use unison_capabilities.Store.{InstallDir, CapabilityStore, CapabilityRef, Tree}
use unison_capabilities.Store.Artifacts.{versions_of, dir_at, put_dir, safe_ref}
use unison_capabilities.Installer.{
  Disk, sync_after, InstallResult, installed_dir, raise_fault, stage_dir, new_stage, stage_files,
  promote_stage, stage_and_promote, install_manifest_atomic, install_ref, install_at, stage_name,
  cleaned, with_parent, left_over, remains, install_failed, installed_at,
}

-- Either the directories are as before, but for an empty one of the capability, and no update is
-- reported; or the whole directory is in place, and that is reported unless the disk raised at the
-- very last step.
abbrev pub IsAllOrNothing :
    Disk
    → CapabilityRef
    → InstallDir
    → Tree InstallDir
    → Result InstallResult × CapabilityStore
    → Type 0
IsAllOrNothing disk ref dir before (r, s) =
    (((s.manifests ≡ before) ⊎ (s.manifests ≡ with_parent ref.capability_id before))
      × (r ≢ ok (record { ref = ref; updated = true })))
    ⊎ ((s.manifests ≡ put_dir ref dir before)
        × ((r ≡ ok (record { ref = ref; updated = true }))
            ⊎ ((is_ok r ≡ false) × (disk.fault sync_after ≢ none))))

-- Nothing but the directory of the stage differs.
record SameOutside (stage : String) (s t : CapabilityStore) : Type 0 where
  base : t.base_catalog ≡ s.base_catalog
  local : t.local_catalog ≡ s.local_catalog
  payloads : t.payloads ≡ s.payloads
  manifests : t.manifests ≡ s.manifests
  staging : (k : String) → (stage == k) ≡ false → Dict.lookup k t.staging ≡ Dict.lookup k s.staging

SameOutside-preorder : (stage : String) → Preorder (SameOutside stage)
SameOutside-preorder stage = record {
  reflexive = λ s. record {
    base = refl;
    local = refl;
    payloads = refl;
    manifests = refl;
    staging = λ k h. refl;
  };
  transitive = λ s t u p q. record {
    base = q.base ∙ p.base;
    local = q.local ∙ p.local;
    payloads = q.payloads ∙ p.payloads;
    manifests = q.manifests ∙ p.manifests;
    staging = λ k h. q.staging k h ∙ p.staging k h;
  };
}

module _ (stage : String) where
  raise_fault-Within : (o : Option String) → Within (SameOutside stage) (raise_fault o)
  raise_fault-Within none = Within-pure (SameOutside-preorder stage) tt
  raise_fault-Within (some text) = Within-raise (SameOutside-preorder stage) (python_error text)

  stage_dir-Within : (dir : InstallDir) → Within (SameOutside stage) (stage_dir stage dir)
  stage_dir-Within dir = record {
    at = λ s. record {
      base = refl;
      local = refl;
      payloads = refl;
      manifests = refl;
      staging = λ k h. rw (lookup-insert, h) refl;
    };
  }

  new_stage-Within : Within (SameOutside stage) (new_stage stage)
  new_stage-Within = search (within_rules, SameOutside-preorder, stage_dir-Within)

  stage_files-Within :
      (disk : Disk) (m : Fields) (meta : Option Fields)
      → Within (SameOutside stage) (stage_files disk stage m meta)
  unfolding stage_files
  stage_files-Within disk m meta =
      search
        (within_rules, SameOutside-preorder, raise_fault-Within, new_stage-Within, stage_dir-Within)
        depth 12

new_parent :
    (id : String) (t : Tree InstallDir)
    → Dict.lookup id t ≡ none
    → with_parent id t ≡ Dict.insert id [] t
new_parent id t missing = rw missing refl

old_parent :
    (id : String) (versions : Dict.Dict InstallDir) (t : Tree InstallDir)
    → Dict.lookup id t ≡ some versions
    → with_parent id t ≡ t
old_parent id versions t there = rw there refl

versions_of_new : (id : String) (t : Tree InstallDir) → versions_of id (Dict.insert id [] t) ≡ []
versions_of_new id t = ground (arith, lookup-insert id id [] t, eq_refl id)

no_versions : (id : String) (t : Tree InstallDir) → Dict.lookup id t ≡ none → versions_of id t ≡ []
no_versions id t missing = ground (arith, missing)

put_new :
    (ref : CapabilityRef) (dir : InstallDir) (t : Tree InstallDir)
    → Dict.lookup ref.capability_id t ≡ none
    → put_dir ref dir (Dict.insert ref.capability_id [] t) ≡ put_dir ref dir t
unfolding put_dir
put_new ref dir t missing =
    rw (versions_of_new, insert-insert)
      (ap (λ v. Dict.insert ref.capability_id (Dict.insert ref.version dir v) t)
        (sym (no_versions _ t missing)))

-- It makes no difference to a new directory whether its parent was there.
put_dir-with_parent :
    (ref : CapabilityRef) (dir : InstallDir) (t : Tree InstallDir)
    → put_dir ref dir (with_parent ref.capability_id t) ≡ put_dir ref dir t
put_dir-with_parent ref dir t = elim (Option-cases (Dict.lookup ref.capability_id t)) [
  | inl missing ↦ ap (put_dir ref dir) (new_parent _ t missing) ∙ put_new ref dir t missing
  | inr (versions, there) ↦ ap (put_dir ref dir) (old_parent _ versions t there)
]

-- The promotion touches the directories alone.
module _ (disk : Disk) (ref : CapabilityRef) (dir : InstallDir) (s : CapabilityStore) where
  promote_all : IsAllOrNothing disk ref dir s.manifests (promote_stage disk ref dir s)
  unfolding promote_stage
  promote_all = ground (arith, put_dir-with_parent ref dir s.manifests)

  promote_rest :
      (promote_stage disk ref dir s).1
      ≡ record s { manifests = (promote_stage disk ref dir s).1.manifests }
  unfolding promote_stage
  promote_rest = ground arith

-- What an installation may change: one directory as a whole, the stage, of which there is only what
-- the disk leaves when it is removed, and no other part of the store.
pub record IsAtomic (disk : Disk) (stage : String) (ref : CapabilityRef) (dir : InstallDir)
    (s : CapabilityStore) (out : Result InstallResult × CapabilityStore) : Type 0 where
  pub dirs : IsAllOrNothing disk ref dir s.manifests out
  pub base : out.1.base_catalog ≡ s.base_catalog
  pub local : out.1.local_catalog ≡ s.local_catalog
  pub payloads : out.1.payloads ≡ s.payloads
  pub staging :
      (k : String) → (stage == k) ≡ false → Dict.lookup k out.1.staging ≡ Dict.lookup k s.staging
  pub stage_left :
      (Dict.lookup stage out.1.staging ≡ none)
      ⊎ ((whole left : InstallDir) × (disk.residue whole ≡ some left)
          × (Dict.lookup stage out.1.staging ≡ some left))

remains_other :
    (stage : String) (o : Option InstallDir) (staging : Dict.Dict InstallDir) (k : String)
    → (stage == k) ≡ false
    → Dict.lookup k (remains stage o staging) ≡ Dict.lookup k staging
remains_other stage none staging k h = rw (lookup-erase, h) refl
remains_other stage (some dir) staging k h = rw (lookup-insert, h) refl

remains_stage :
    (disk : Disk) (stage : String) (o : Option InstallDir) (staging : Dict.Dict InstallDir)
    → let left = Dict.lookup stage (remains stage (left_over disk o) staging) in
      (left ≡ none)
      ⊎ ((whole rest : InstallDir) × (disk.residue whole ≡ some rest) × (left ≡ some rest))
remains_stage disk stage none staging = inl (rw (lookup-erase, eq_refl stage) refl)
remains_stage disk stage (some dir) staging = elim (Option-cases (disk.residue dir)) [
  | inl gone ↦ inl (rw (gone, lookup-erase, eq_refl stage) refl)
  | inr (rest, stays) ↦ inr (dir, rest, stays, rw (stays, lookup-insert, eq_refl stage) refl)
]

module _ (disk : Disk) (ref : CapabilityRef) (m : Fields) (meta : Option Fields)
    (s : CapabilityStore) where
  failed_all :
      (dir : InstallDir) (r : Result InstallResult) (t : CapabilityStore)
      → IsAllOrNothing disk ref dir s.manifests (r, t)
      → IsAllOrNothing disk ref dir s.manifests (install_failed r, t)
  failed_all dir (ok r) t h = h
  failed_all dir (err e) t h = ground arith

  -- the two phases, after the first has returned `r` in `t`
  phases :
      (stage : String) (r : Result (Unit {0})) (t : CapabilityStore)
      → SameOutside stage s t
      → IsAtomic disk stage ref
          (installed_dir m meta)
          s
          (cleaned disk stage (continue r t (λ _. promote_stage disk ref (installed_dir m meta))))
  phases stage (err e) t same = record {
    dirs = inl (inl same.manifests, λ h. cc);
    base = same.base;
    local = same.local;
    payloads = same.payloads;
    staging = λ k h. remains_other stage _ t.staging k h ∙ same.staging k h;
    stage_left = remains_stage disk stage (Dict.lookup stage t.staging) t.staging;
  }
  phases stage (ok u) t same =
      let dir = installed_dir m meta in
      let all = promote_all disk ref dir t in
      let out = promote_stage disk ref dir t in
      let rest = promote_rest disk ref dir t in
      let stages : out.1.staging ≡ t.staging = ap (λ x. x.staging) rest in
      record {
        dirs =
            failed_all dir out.0 out.1
              (subst (λ b. IsAllOrNothing disk ref dir b out) same.manifests all);
        base = ap (λ x. x.base_catalog) rest ∙ same.base;
        local = ap (λ x. x.local_catalog) rest ∙ same.local;
        payloads = ap (λ x. x.payloads) rest ∙ same.payloads;
        staging = λ k h.
            remains_other stage _ out.1.staging k h ∙ ap (Dict.lookup k) stages ∙ same.staging k h;
        stage_left = remains_stage disk stage (Dict.lookup stage out.1.staging) out.1.staging;
      }

  unchanged :
      (stage : String) (dir : InstallDir) (r : Result InstallResult)
      → Dict.lookup stage s.staging ≡ none
      → r ≢ ok (record { ref = ref; updated = true })
      → IsAtomic disk stage ref dir s (r, s)
  unchanged stage dir r fresh h = record {
    dirs = inl (inl refl, h);
    base = refl;
    local = refl;
    payloads = refl;
    staging = λ k other. refl;
    stage_left = inl fresh;
  }

  install_at_all :
      (token : String)
      → Dict.lookup (stage_name ref token) s.staging ≡ none
      → IsAtomic disk
          (stage_name ref token)
          ref
          (installed_dir m meta)
          s
          (install_at disk token ref m meta s)
  unfolding install_at stage_and_promote
  install_at_all token fresh =
      let dir = installed_dir m meta in
      let stage = stage_name ref token in
      let first = stage_files disk stage m meta s in
      elim (Result-cases (safe_ref ref)) [
        | inr (e, unsafe) ↦ rw unsafe (unchanged stage dir (err e) fresh (λ h. cc))
        | inl (_, safe) ↦ elim (Bool-cases (installed_at (dir_at ref s.manifests))) [
          | inl there ↦ rw (safe, there) (unchanged stage dir _ fresh (λ h. ground arith))
          | inr missing ↦
              rw (safe, missing)
                (phases stage first.0 first.1 ((stage_files-Within stage disk m meta).at s))
        ]
      ]

module _ ⦃py : Python⦄ where
  pub install_manifest_atomic-IsAtomic :
      (disk : Disk) (token : String) (m : Fields) (meta : Option Fields) (s : CapabilityStore)
      → Dict.lookup (stage_name (install_ref m) token) s.staging ≡ none
      → IsAtomic disk
          (stage_name (install_ref m) token)
          (install_ref m)
          (installed_dir m meta)
          s
          (install_manifest_atomic disk token m meta s)
  unfolding install_manifest_atomic
  install_manifest_atomic-IsAtomic disk token m meta s fresh =
      let ref = install_ref m in
      elim (Bool-cases (ref.capability_id == "" || ref.version == "")) [
        | inl nameless ↦ rw nameless (
            unchanged disk ref m meta s (stage_name ref token) (installed_dir m meta) _ fresh
              (λ h. cc))
        | inr named ↦ rw named (install_at_all disk ref m meta s token fresh)
      ]
