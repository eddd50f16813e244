-- ===== src/Store/Effects.antt =====
-- What each catalog operation of src/store.py returns, writes and leaves alone.
use unison_capabilities.Base.{
  String, ◌≡◌, ◌≢◌, refl, ◌∙◌, ◌↔◌, inl, inr, Bool, false, none, some, [], ◌∷◌, arith, ◌==◌, eq_iff,
  Bool-cases, Option-cases, if◌then◌else◌,
}
use unison_capabilities.Base.Dict
use unison_capabilities.Base.Dict.{
  Dict, NodupKeys, lookup-insert, lookup-erase, lookup-update, insert-NodupKeys, erase-NodupKeys,
  override,
}
use unison_capabilities.Value.{Fields, bool, put, get-put, Python}
use unison_capabilities.Error.{Error, ok, err}
use unison_capabilities.Schema.{Validator, validate_manifest, IsValid, validate_manifest_returns}
use unison_capabilities.Store.{
  CapabilityStore, id_of, load_catalog_file, catalog_file, merged_catalog, upsert_local,
  delete_local, set_local_enabled, factory_reset,
}
use unison_capabilities.Store.Catalog.{
  IsCatalog, IsCatalog-Nodup, insert-IsCatalog, erase-IsCatalog, load-IsCatalog, load-catalog_file,
}

module _ ⦃py : Python⦄ ⦃validator : Validator⦄ where
  -- The two catalogs of a store, where both files can be read.
  pub record Holds (s : CapabilityStore) (base local : Dict Fields) : Type 0 where
    pub base_read : load_catalog_file s.base_catalog ≡ ok base
    pub local_read : load_catalog_file s.local_catalog ≡ ok local

  -- The local catalog of the merged view wins, id by id; reading changes nothing.
  pub merged_lookup :
      (s : CapabilityStore) (base local : Dict Fields)
      → Holds s base local
      → (d : Dict Fields) × (merged_catalog s ≡ (ok d, s))
        × ((k : String) → Dict.lookup k d ≡ override (Dict.lookup k local) (Dict.lookup k base))
  unfolding merged_catalog
  merged_lookup s base local h = (
    Dict.update base local,
    rw (h.base_read, h.local_read) refl,
    λ k.
        lookup-update k base local
          (IsCatalog-Nodup local (load-IsCatalog s.local_catalog local h.local_read)),
  )

  -- A valid manifest with an id is written under its id: the local catalog that is read afterwards
  -- is the old one with that entry, and nothing else in the store changes.
  pub upsert_local_effect :
      (s : CapabilityStore) (base local : Dict Fields) (m : Fields)
      → Holds s base local
      → IsValid m
      → id_of m ≢ ""
      → (s' : CapabilityStore) × (upsert_local m s ≡ (ok tt, s'))
        × (s' ≡ record s { local_catalog = s'.local_catalog })
        × Holds s' base (Dict.insert (id_of m) m local)
  unfolding upsert_local
  upsert_local_effect s base local m h valid named =
      let nonempty : id_of m == "" ≡ false = ground (arith, eq_iff (id_of m) "") in
      let next = Dict.insert (id_of m) m local in
      let good =
        insert-IsCatalog m local nonempty valid
          (load-IsCatalog s.local_catalog local h.local_read) in
      (
        record s { local_catalog = catalog_file next },
        rw (valid, nonempty, h.local_read) refl,
        refl,
        record { base_read = h.base_read; local_read = load-catalog_file next good },
      )

  -- An `upsert_local` that raises has changed nothing.
  pub upsert_local_error :
      (s : CapabilityStore) (m : Fields) (e : Error)
      → (upsert_local m s).0 ≡ err e
      → (upsert_local m s).1 ≡ s
  unfolding upsert_local
  upsert_local_error s m e h = ground arith

  -- `upsert_local` returns exactly when the manifest is valid, has an id and the local catalog can
  -- be read.
  pub upsert_local_iff :
      (s : CapabilityStore) (m : Fields)
      → ((upsert_local m s).0 ≡ ok tt) ↔ (
          IsValid m
          × (id_of m ≢ "")
          × ((d : Dict Fields) × (load_catalog_file s.local_catalog ≡ ok d)))
  unfolding upsert_local
  upsert_local_iff s m = (
    λ h.
        let (n, valid) : (n : Fields) × (validate_manifest m ≡ ok n) = ground arith in
        (
          rw (validate_manifest_returns m n valid) at valid,
          λ e. ground (arith, eq_iff (id_of m) ""),
          ground arith,
        ),
    λ (valid, named, (d, read)). ground (arith, eq_iff (id_of m) ""),
  )

  erased :
      (s : CapabilityStore) (base local : Dict Fields) (k : String)
      → Holds s base local
      → Holds
          (record s { local_catalog = catalog_file (Dict.erase k local) })
          base
          (Dict.erase k local)
  erased s base local k h = record {
    base_read = h.base_read;
    local_read =
        load-catalog_file _
          (erase-IsCatalog k local (load-IsCatalog s.local_catalog local h.local_read));
  }

  -- Deleting returns whether the id was in the local catalog, which afterwards lacks that entry
  -- alone; nothing else in the store changes.
  pub delete_local_effect :
      (s : CapabilityStore) (base local : Dict Fields) (k : String)
      → Holds s base local
      → (s' : CapabilityStore) × (delete_local k s ≡ (ok (Dict.has_key k local), s'))
        × (s' ≡ record s { local_catalog = s'.local_catalog })
        × ((d : Dict Fields) × Holds s' base d
            × ((j : String) → Dict.lookup j d ≡ (if k == j then none else Dict.lookup j local)))
  unfolding delete_local
  delete_local_effect s base local k h = elim (Option-cases (Dict.lookup k local)) [
    | inl missing ↦
        (s, rw (h.local_read, missing) refl, refl, (local, h, λ j. ground (arith, eq_iff k j)))
    | inr (m, found) ↦ (
      record s { local_catalog = catalog_file (Dict.erase k local) },
      rw (h.local_read, found) refl,
      refl,
      (Dict.erase k local, erased s base local k h, λ j. lookup-erase j k local),
    )
  ]

  catalog_id :
      (d : Dict Fields) (k : String) (m : Fields)
      → IsCatalog d
      → Dict.lookup k d ≡ some m
      → (id_of m ≡ k) × (k ≢ "")
  unfolding Dict.lookup
  catalog_id [] k m h e = cc
  catalog_id ((j, w) ∷ d) k m (same, ne, valid, fresh, rest) e = elim (Bool-cases (j == k)) [
    | inl here ↦
        let is_k : j ≡ k = (eq_iff j k).0 here in
        let is_m : w ≡ m = ground arith in
        (cc (is_k, is_m, same), λ empty. ground (arith, eq_iff j ""))
    | inr other ↦ catalog_id d k m rest (ground arith)
  ]

  id_of-enabled : (m : Fields) (b : Bool) → id_of (put "enabled" (bool b) m) ≡ id_of m
  unfolding id_of
  id_of-enabled m b = rw (get-put "id" "enabled" (bool b) m) refl

  shown_id :
      (s : CapabilityStore) (base local : Dict Fields) (k : String) (m : Fields)
      → Holds s base local
      → override (Dict.lookup k local) (Dict.lookup k base) ≡ some m
      → (id_of m ≡ k) × (k ≢ "")
  shown_id s base local k m h shown = elim (Option-cases (Dict.lookup k local)) [
    | inl missing ↦
        catalog_id base k m (load-IsCatalog s.base_catalog base h.base_read) (rw missing at shown)
    | inr (w, found) ↦
        catalog_id local k m (load-IsCatalog s.local_catalog local h.local_read)
          (found ∙ (rw found at shown))
  ]

  -- Enabling or disabling an id of the merged view, where the schema accepts the changed manifest,
  -- overrides it locally: the merged view then has the manifest with that flag under the id, and
  -- what it had under every other.
  pub set_local_enabled_effect :
      (s : CapabilityStore) (base local : Dict Fields) (k : String) (b : Bool) (m : Fields)
      → Holds s base local
      → override (Dict.lookup k local) (Dict.lookup k base) ≡ some m
      → IsValid (put "enabled" (bool b) m)
      → (s' : CapabilityStore) × (set_local_enabled k b s ≡ (ok tt, s'))
        × (s' ≡ record s { local_catalog = s'.local_catalog })
        × Holds s' base (Dict.insert k (put "enabled" (bool b) m) local)
  unfolding set_local_enabled
  set_local_enabled_effect s base local k b m h shown valid =
      let (d, run, look) = merged_lookup s base local h in
      let (same, named) = shown_id s base local k m h shown in
      let kept : id_of (put "enabled" (bool b) m) ≡ k = id_of-enabled m b ∙ same in
      let (s', ran, only, after) =
        upsert_local_effect s base local (put "enabled" (bool b) m) h valid
          (λ e. named (cc (e, kept))) in
      (s', rw (run, look k, shown) ran, only, rw kept at after)

  -- After a factory reset the merged view is the base catalog and no artifact is left.
  pub factory_reset_effect :
      (s : CapabilityStore) (base : Dict Fields)
      → load_catalog_file s.base_catalog ≡ ok base
      → ((factory_reset s).0 ≡ ok tt)
        × (merged_catalog (factory_reset s).1 ≡ (ok base, (factory_reset s).1))
        × ((factory_reset s).1.base_catalog ≡ s.base_catalog)
        × ((factory_reset s).1.manifests ≡ [])
        × ((factory_reset s).1.payloads ≡ [])
  unfolding factory_reset merged_catalog load_catalog_file Dict.update
  factory_reset_effect s base h = (refl, rw h refl, refl, refl, refl)
