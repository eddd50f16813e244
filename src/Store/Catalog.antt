-- ===== src/Store/Catalog.antt =====
-- What the operations of src/store.py do to the two catalogs.
use unison_capabilities.Base.{
  String, ◌≡◌, refl, ap, ◌∙◌, inl, inr, false, none, List, [], ◌∷◌, arith, ◌==◌, eq_iff, Bool-cases,
  if◌then◌else◌,
}
use unison_capabilities.Base.Dict
use unison_capabilities.Base.Dict.Update.{update-nil}
use unison_capabilities.Base.Dict.{
  Dict, NodupKeys, lookup-insert, lookup-erase, lookup-update, insert-NodupKeys, erase-NodupKeys,
  override,
}
use unison_capabilities.Value.{Value, Fields, obj, arr, null, get, items, of_list, Python}
use unison_capabilities.Error
use unison_capabilities.Error.{Result, ok, err, not_found_error}
use unison_capabilities.Schema.{Validator, validate_manifest, IsValid, validate_manifest_returns}
use unison_capabilities.Store.{
  File, absent, broken, holds, manifest_values, load_items, load_capabilities, load_catalog_file,
  id_of, catalog_file,
}

module _ ⦃py : Python⦄ ⦃validator : Validator⦄ where
  -- A catalog as it is loaded: keys differ, and each is the non-empty id of a valid manifest.
  abbrev pub IsCatalog : Dict Fields → Type 0
  IsCatalog [] = Unit
  IsCatalog ((k, m) ∷ d) =
      (id_of m ≡ k) × ((k == "") ≡ false) × IsValid m × (Dict.lookup k d ≡ none) × IsCatalog d

  pub IsCatalog-Nodup : (d : Dict Fields) → IsCatalog d → NodupKeys d
  IsCatalog-Nodup [] h = tt
  IsCatalog-Nodup ((k, m) ∷ d) (_, _, _, fresh, rest) = (fresh, IsCatalog-Nodup d rest)

  kept :
      (m : Fields) (k : String) (d : Dict Fields)
      → k == id_of m ≡ false
      → Dict.lookup k d ≡ none
      → Dict.lookup k (Dict.insert (id_of m) m d) ≡ none
  kept m k d other fresh =
      ground (arith, lookup-insert k (id_of m) m d, eq_iff k (id_of m), eq_iff (id_of m) k)

  pub insert-IsCatalog :
      (m : Fields) (d : Dict Fields)
      → (id_of m == "") ≡ false
      → IsValid m
      → IsCatalog d
      → IsCatalog (Dict.insert (id_of m) m d)
  unfolding Dict.insert
  insert-IsCatalog m [] n v h = (refl, n, v, Dict.lookup-nil (id_of m), tt)
  insert-IsCatalog m ((k, w) ∷ d) n v (same, ne, valid, fresh, rest) =
      elim (Bool-cases (k == id_of m)) [
        | inl here ↦ rw here (refl, n, v, rw (← (eq_iff k _).0 here) fresh, rest)
        | inr other ↦
            rw other (same, ne, valid, kept m k d other fresh, insert-IsCatalog m d n v rest)
      ]

  still_new :
      (j k : String) (d : Dict Fields)
      → Dict.lookup j d ≡ none
      → Dict.lookup j (Dict.erase k d) ≡ none
  still_new j k d h = ground (arith, lookup-erase j k d)

  pub erase-IsCatalog : (k : String) (d : Dict Fields) → IsCatalog d → IsCatalog (Dict.erase k d)
  unfolding Dict.erase
  erase-IsCatalog k [] h = tt
  erase-IsCatalog k ((j, m) ∷ d) (same, ne, valid, fresh, rest) = elim (Bool-cases (j == k)) [
    | inl here ↦ rw here (erase-IsCatalog k d rest)
    | inr other ↦ rw other (same, ne, valid, still_new j k d fresh, erase-IsCatalog k d rest)
  ]

  on_item : Fields → List Value → Dict Fields → Result (Dict Fields)
  on_item m vs out = load_items vs (if id_of m == "" then out else Dict.insert (id_of m) m out)

  -- Whatever the file holds, what is loaded from it is a catalog.
  load_items-IsCatalog :
      (vs : List Value) (out d : Dict Fields)
      → IsCatalog out
      → load_items vs out ≡ ok d
      → IsCatalog d
  unfolding load_items on_item
  load_items-IsCatalog [] out d h e = let same : out ≡ d = cc in rw (← same) h
  load_items-IsCatalog (obj m ∷ vs) out d h e =
      let (n, valid, on) = Error.bind-eq-ok (validate_manifest m) (λ _. on_item m vs out) e in
      let good : IsValid m = rw (validate_manifest_returns m n valid) at valid in
      elim (Bool-cases (id_of m == "")) [
        | inl nameless ↦ load_items-IsCatalog vs out d h (rw nameless at on)
        | inr named ↦
            load_items-IsCatalog vs (Dict.insert (id_of m) m out) d
              (insert-IsCatalog m out named good h) (rw named at on)
      ]
  load_items-IsCatalog (v ∷ vs) out d h e = load_items-IsCatalog vs out d h e

  load_capabilities-IsCatalog :
      (v : Value) (d : Dict Fields) → load_capabilities v ≡ ok d → IsCatalog d
  load_capabilities-IsCatalog null d e = let same : [] ≡ d = cc in rw (← same) tt
  load_capabilities-IsCatalog (arr vs) d e = load_items-IsCatalog (items vs) [] d tt e
  load_capabilities-IsCatalog v d e = cc

  pub load-IsCatalog : (f : File) (d : Dict Fields) → load_catalog_file f ≡ ok d → IsCatalog d
  unfolding load_catalog_file
  load-IsCatalog absent d e = let same : [] ≡ d = cc in rw (← same) tt
  load-IsCatalog broken d e = cc
  load-IsCatalog (holds (obj raw)) d e = load_capabilities-IsCatalog (get "capabilities" raw) d e
  load-IsCatalog (holds v) d e = cc

  -- A catalog that was written is read back as it was.
  reload_items :
      (d out : Dict Fields)
      → IsCatalog d
      → load_items (items (of_list (manifest_values d))) out ≡ ok (Dict.update out d)
  unfolding load_items Dict.update
  reload_items [] out h = refl
  reload_items ((k, m) ∷ d) out (same, ne, valid, fresh, rest) =
      rw (valid, same, ne) (reload_items d (Dict.insert k m out) rest)

  pub load-catalog_file :
      (d : Dict Fields) → IsCatalog d → load_catalog_file (catalog_file d) ≡ ok d
  unfolding load_catalog_file get Dict.lookup
  load-catalog_file d h = reload_items d [] h ∙ ap ok (update-nil d (IsCatalog-Nodup d h))
