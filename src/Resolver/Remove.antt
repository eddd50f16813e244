-- ===== src/Resolver/Remove.antt =====
-- What `remove` of src/resolver.py does to the view of the catalogs.
use unison_capabilities.Base.{
  String, ◌≡◌, refl, ap, ◌∙◌, true, false, none, some, arith, ◌==◌, eq_iff, if◌then◌else◌,
}
use unison_capabilities.Base.Dict
use unison_capabilities.Base.Dict.{Dict, lookup-insert, override}
use unison_capabilities.Value.{Fields, bool, put, Python}
use unison_capabilities.Error.{ok}
use unison_capabilities.Schema.{Validator, IsValid}
use unison_capabilities.Store.{
  CapabilityStore, CapabilityRef, load_catalog_file, merged_catalog, delete_local,
}
use unison_capabilities.Store.Effects.{
  Holds, merged_lookup, delete_local_effect, set_local_enabled_effect,
}
use unison_capabilities.Store.Artifacts.{remove as remove_artifacts}
use unison_capabilities.Resolver.{remove}

-- removing the artifacts, or failing to, leaves the catalogs alone
artifacts_stay :
    (ref : CapabilityRef) (s : CapabilityStore)
    → ((remove_artifacts ref s).1.base_catalog ≡ s.base_catalog)
      × ((remove_artifacts ref s).1.local_catalog ≡ s.local_catalog)
unfolding remove_artifacts
artifacts_stay ref s = (ground arith, ground arith)

module _ ⦃py : Python⦄ ⦃validator : Validator⦄ where
  after_artifacts :
      (ref : CapabilityRef) (s : CapabilityStore) (base local : Dict Fields)
      → Holds s base local
      → Holds (remove_artifacts ref s).1 base local
  after_artifacts ref s base local h =
      let (same_base, same_local) = artifacts_stay ref s in
      record {
        base_read = ap load_catalog_file same_base ∙ h.base_read;
        local_read = ap load_catalog_file same_local ∙ h.local_read;
      }

  -- Removing an id that the local catalog has returns true and drops that entry: the id then shows
  -- what the base catalog has, and every other id what it had.
  pub remove_local :
      (s : CapabilityStore) (base local : Dict Fields) (id version : String) (m : Fields)
      → Holds s base local
      → Dict.lookup id local ≡ some m
      → ((remove id version s).0 ≡ ok true)
        × ((d : Dict Fields) × Holds (remove id version s).1 base d
            × ((j : String) → Dict.lookup j d ≡ (if id == j then none else Dict.lookup j local)))
  unfolding remove
  remove_local s base local id version m h found =
      let (d, merged, look) = merged_lookup s base local h in
      let (s', ran, only, (e, after, rest)) = delete_local_effect s base local id h in
      let ref : CapabilityRef = record { capability_id = id; version = version } in
      (
        rw (merged, look id, found, ran, found) refl,
        (e, rw (merged, look id, found, ran, found) (after_artifacts ref s' base e after), rest),
      )

  delete_missing :
      (s : CapabilityStore) (local : Dict Fields) (id : String)
      → load_catalog_file s.local_catalog ≡ ok local
      → Dict.lookup id local ≡ none
      → delete_local id s ≡ (ok false, s)
  unfolding delete_local
  delete_missing s local id read missing = rw (read, missing) refl

  -- Removing an id that only the base catalog has returns true and overrides it locally by the same
  -- manifest with `enabled` false, where the schema accepts that.
  pub remove_base :
      (s : CapabilityStore) (base local : Dict Fields) (id version : String) (m : Fields)
      → Holds s base local
      → Dict.lookup id local ≡ none
      → Dict.lookup id base ≡ some m
      → IsValid (put "enabled" (bool false) m)
      → ((remove id version s).0 ≡ ok true)
        × Holds (remove id version s).1 base (Dict.insert id (put "enabled" (bool false) m) local)
  unfolding remove
  remove_base s base local id version m h missing found valid =
      let (d, merged, look) = merged_lookup s base local h in
      let none_local = delete_missing s local id h.local_read missing in
      let shown : override (Dict.lookup id local) (Dict.lookup id base) ≡ some m =
        rw (missing, found) refl in
      let (s', ran, only, after) = set_local_enabled_effect s base local id false m h shown valid in
      let ref : CapabilityRef = record { capability_id = id; version = version } in
      (
        rw (merged, look id, missing, found, none_local, ran) refl,
        rw (merged, look id, missing, found, none_local, ran)
            (after_artifacts ref s' base (Dict.insert id (put "enabled" (bool false) m) local)
              after),
      )

  -- Removing such an id twice undoes the removal: both calls return true, and the view then shows
  -- the manifest of the base catalog again.
  pub remove_twice :
      (s : CapabilityStore) (base local : Dict Fields) (id version : String) (m : Fields)
      → Holds s base local
      → Dict.lookup id local ≡ none
      → Dict.lookup id base ≡ some m
      → IsValid (put "enabled" (bool false) m)
      → let once = remove id version s in
        let twice = remove id version once.1 in
        (once.0 ≡ ok true)
        × (twice.0 ≡ ok true)
        × ((d : Dict Fields) × (merged_catalog twice.1 ≡ (ok d, twice.1))
            × (Dict.lookup id d ≡ some m))
  remove_twice s base local id version m h missing found valid =
      let (first, held) = remove_base s base local id version m h missing found valid in
      let off = put "enabled" (bool false) m in
      let there : Dict.lookup id (Dict.insert id off local) ≡ some off =
        ground (arith, lookup-insert id id off local, eq_iff id id) in
      let s' = (remove id version s).1 in
      let (second, (e, again, gone)) =
        remove_local s' base (Dict.insert id off local) id version off held there in
      let (d, merged, look) = merged_lookup (remove id version s').1 base e again in
      let none_local : Dict.lookup id e ≡ none = ground (arith, gone id, eq_iff id id) in
      (first, second, (d, merged, rw (look id, none_local, found) refl))
