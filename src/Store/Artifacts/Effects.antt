-- ===== src/Store/Artifacts/Effects.antt =====
-- What the artifact operations of src/store.py return and leave on disk.
use unison_capabilities.Base.{
  String, ◌≡◌, ◌≢◌, refl, ◌↔◌, true, false, Option, none, arith, eq_iff, eq_refl, strip, has_text,
}
use unison_capabilities.Base.Dict
use unison_capabilities.Value.{Number, Fields, obj, Python}
use unison_capabilities.Error.{ok}
use unison_capabilities.Store.{holds, InstallDir, CapabilityStore, CapabilityRef, safe_dirname}
use unison_capabilities.Store.Artifacts.{
  ref_of, dir_at, put_dir, drop_dir, safe_ref, get_manifest, put_manifest, meta_out, remove,
}
use unison_capabilities.Store.Artifacts.Laws.{same_ref, dir_at-put_dir, dir_at-drop_dir}

same_ref_refl : (r : CapabilityRef) → same_ref r r ≡ true
same_ref_refl r = rw (eq_refl, eq_refl) refl

-- A name that may become a directory: not empty, no space at its ends, none of `/`, `\`, `..`, NUL.
pub safe_dirname_iff :
    (v : String)
    → (safe_dirname v ≡ ok v) ↔ (
        (v ≢ "")
        × (strip v ≡ v)
        × (has_text v "/" ≡ false)
        × (has_text v "\\" ≡ false)
        × (has_text v ".." ≡ false)
        × (has_text v "\0" ≡ false))
unfolding safe_dirname
safe_dirname_iff v = ground (arith, eq_iff v "", eq_iff (strip v) v)

module _ ⦃py : Python⦄ where
  -- A manifest with a safe reference is put under it and read back as it was; every other
  -- directory and the rest of the store stay.
  pub get_manifest-put_manifest :
      (now : Number) (m : Fields) (meta : Option Fields) (s : CapabilityStore)
      → safe_ref (ref_of m) ≡ ok (ref_of m)
      → (s' : CapabilityStore) × (put_manifest now m meta s ≡ (ok (ref_of m), s'))
        × (get_manifest (ref_of m) s' ≡ (ok m, s'))
        × (s' ≡ record s { manifests = s'.manifests })
        × ((q : CapabilityRef)
            → same_ref (ref_of m) q ≡ false
            → dir_at q s'.manifests ≡ dir_at q s.manifests)
  unfolding put_manifest get_manifest
  get_manifest-put_manifest now m meta s safe =
      let dir : InstallDir = record {
        manifest = holds (obj m);
        meta = holds (obj (meta_out now meta));
      } in
      let r = ref_of m in
      (
        record s { manifests = put_dir r dir s.manifests },
        rw safe refl,
        rw (safe, dir_at-put_dir r r dir s.manifests, same_ref_refl r) refl,
        refl,
        λ q other. ground (arith, dir_at-put_dir r q dir s.manifests),
      )

-- Removing a safe reference returns whether its directory was there. Afterwards neither its
-- manifest nor its payload is; every other reference and the catalogs keep what they had.
pub remove_effect :
    (ref : CapabilityRef) (s : CapabilityStore)
    → safe_ref ref ≡ ok ref
    → (s' : CapabilityStore) × (remove ref s ≡ (ok (Dict.is_some (dir_at ref s.manifests)), s'))
      × (s' ≡ record s { manifests = s'.manifests; payloads = s'.payloads })
      × (dir_at ref s'.manifests ≡ none)
      × (dir_at ref s'.payloads ≡ none)
      × ((q : CapabilityRef)
          → same_ref ref q ≡ false
          → (dir_at q s'.manifests ≡ dir_at q s.manifests)
            × (dir_at q s'.payloads ≡ dir_at q s.payloads))
unfolding remove
remove_effect ref s safe = (
  record s { manifests = drop_dir ref s.manifests; payloads = drop_dir ref s.payloads },
  rw safe refl,
  refl,
  ground (arith, dir_at-drop_dir ref ref s.manifests, same_ref_refl ref),
  ground (arith, dir_at-drop_dir ref ref s.payloads, same_ref_refl ref),
  λ q other. (
    ground (arith, dir_at-drop_dir ref q s.manifests),
    ground (arith, dir_at-drop_dir ref q s.payloads),
  ),
)
