-- ===== src/Store.antt =====
-- src/store.py: the base and the local catalog, and the installed artifacts on disk. An object's
-- keys are written sorted and read back as they are; their order is not modelled.
pub mod Artifacts
pub mod Catalog
pub mod Effects
use unison_capabilities.Base.{
  ℕ, String, ◌<>◌, Bool, true, false, not, ◌&&◌, ◌||◌, Option, none, some, List, [], ◌∷◌, ◌==◌, any,
  strip, has_text, if◌then◌else◌,
}
use unison_capabilities.Base.Dict
use unison_capabilities.Base.Dict.{Dict}
use unison_capabilities.Value.{
  Value, Fields, end, field, obj, arr, null, str, bool, items, of_list, Python, get, put,
  text_or_empty, to_text, as_list,
}
use unison_capabilities.Error.{Error, Result, ok, err, not_found_error, manifest_error, raise_if}
use unison_capabilities.Error
use unison_capabilities.Exec.{Exec, pure, raise, lift, gets, reads, modify, ◌>>=◌, ◌>>◌}
use unison_capabilities.Schema.{Validator, validate_manifest}

-- A JSON file: not there, not JSON, or a value.
pub data File : Type 0 where
  absent broken : File
  holds : Value → File

-- The two files of manifests/<id>/<version>.
pub record InstallDir : Type 0 where
  pub manifest : File
  pub meta : File

-- The directories below a folder: by capability id, then by version.
abbrev pub Tree : Type 0 → Type 0
Tree A = Dict (Dict A)

-- What a path outside the store holds, a file or a folder as one text.
abbrev pub Payload : Type 0
Payload = String

pub record CapabilityStore : Type 0 where
  pub base_catalog : File
  pub local_catalog : File
  pub manifests : Tree InstallDir
  pub payloads : Tree Payload
  -- the directories that are being staged, by name
  pub staging : Dict InstallDir

pub record CapabilityRef : Type 0 where
  pub capability_id : String
  pub version : String

unfoldable pub safe_dirname : String → Result String
safe_dirname value =
    if value == "" || not (strip value == value)
    then err (manifest_error "invalid id/version for storage")
    else if any (has_text value) ("/" ∷ "\\" ∷ ".." ∷ "\0" ∷ [])
    then err (manifest_error "unsafe id/version for storage")
    else ok value

abbrev pub manifest_values : Dict Fields → List Value
manifest_values [] = []
manifest_values ((k, m) ∷ d) = obj m ∷ manifest_values d

-- A store operation: the store after it comes back beside the result.
abbrev pub Op : Type 0 → Type 0
Op A = Exec CapabilityStore A

module _ ⦃py : Python⦄ where
  -- `str(manifest.get("id") or "")`
  unfoldable pub id_of : Fields → String
  id_of manifest = text_or_empty (get "id" manifest)

module _ ⦃py : Python⦄ ⦃validator : Validator⦄ where
  -- The loop of `_load_catalog_file` over the items; `out` is the dict that it fills.
  unfoldable pub load_items : List Value → Dict Fields → Result (Dict Fields)
  load_items [] out = ok out
  load_items (obj item ∷ rest) out =
      let cid = id_of item in
      let on = load_items rest (if cid == "" then out else Dict.insert cid item out) in
      Error.◌>>=◌ (validate_manifest item) λ _. on
  load_items (v ∷ rest) out = load_items rest out

  abbrev pub load_capabilities : Value → Result (Dict Fields)
  load_capabilities null = ok []
  load_capabilities (arr caps) = load_items (items caps) []
  load_capabilities v = err (manifest_error "invalid catalog capabilities list")

  unfoldable pub load_catalog_file : File → Result (Dict Fields)
  load_catalog_file absent = ok []
  load_catalog_file broken = err (manifest_error "invalid catalog json")
  load_catalog_file (holds (obj raw)) = load_capabilities (get "capabilities" raw)
  load_catalog_file (holds v) = err (manifest_error "invalid catalog root")

  abbrev pub catalog_file : Dict Fields → File
  catalog_file items_by_id = holds (
      obj (
        field "catalog_version" (str "catalog.v1")
          (field "capabilities" (arr (of_list (manifest_values items_by_id))) end)))

  unfoldable pub write_local_catalog : Dict Fields → Op (Unit {0})
  write_local_catalog items_by_id =
      modify (λ s. record s { local_catalog = catalog_file items_by_id })

  abbrev pub load_base_catalog : Op (Dict Fields)
  load_base_catalog = reads (λ s. load_catalog_file s.base_catalog)

  abbrev pub load_local_catalog : Op (Dict Fields)
  load_local_catalog = reads (λ s. load_catalog_file s.local_catalog)

  unfoldable pub merged_catalog : Op (Dict Fields)
  merged_catalog = do
    base ← load_base_catalog
    local ← load_local_catalog
    pure (Dict.update base local)

  unfoldable pub upsert_local : Fields → Op (Unit {0})
  unfolding write_local_catalog
  upsert_local manifest = do
    lift (validate_manifest manifest)
    let cid = id_of manifest
    if cid == ""
        then raise (manifest_error "manifest.id required")
        else do local ← load_local_catalog; write_local_catalog (Dict.insert cid manifest local)

  unfoldable pub delete_local : String → Op Bool
  unfolding write_local_catalog
  delete_local capability_id = do
    local ← load_local_catalog
    if not (Dict.has_key capability_id local)
        then pure false
        else do write_local_catalog (Dict.erase capability_id local); pure true

  abbrev pub enable_in : Option Fields → Bool → String → Op (Unit {0})
  enable_in none enabled capability_id =
      raise (not_found_error ("capability not found: " <> capability_id))
  enable_in (some current) enabled capability_id =
      upsert_local (put "enabled" (bool enabled) current)

  unfoldable pub set_local_enabled : String → Bool → Op (Unit {0})
  set_local_enabled capability_id enabled = do
    merged ← merged_catalog
    enable_in (Dict.lookup capability_id merged) enabled capability_id

unfoldable pub factory_reset : Op (Unit {0})
factory_reset =
    modify λ s. record s { local_catalog = absent; manifests = []; payloads = []; staging = [] }
