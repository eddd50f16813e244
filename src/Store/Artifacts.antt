-- ===== src/Store/Artifacts.antt =====
-- src/store.py: the installed artifacts, manifests/<id>/<version> and payloads/<id>/<version>.
pub mod Laws
pub mod Effects
use Prim.Native.String.{compare}
use Prim.Native.Nat.{Ordering}
use unison_capabilities.Base.{
  String, ◌<>◌, Bool, true, false, not, ◌&&◌, ◌||◌, Option, none, some, List, [], ◌∷◌, ◌==◌,
  is_empty, if◌then◌else◌,
}
use unison_capabilities.Base.Dict
use unison_capabilities.Base.Dict.{Dict}
use unison_capabilities.Value.{
  Number, Value, Fields, end, field, obj, num, Python, get, put, entries, of_entries, to_text,
}
use unison_capabilities.Error
use unison_capabilities.Error.{Result, ok, err, not_found_error, manifest_error}
use unison_capabilities.Exec.{Exec, pure, raise, lift, gets, reads, modify, ◌>>=◌, ◌>>◌}
use unison_capabilities.Store.{
  File, absent, broken, holds, InstallDir, Tree, Payload, CapabilityStore, CapabilityRef, Op,
  safe_dirname,
}

module _ {A : Type 0} where
  abbrev pub versions_of : String → Tree A → Dict A
  versions_of id t = elim (Dict.lookup id t) [ none ↦ [] | some versions ↦ versions ]

  -- the directory <id>/<version>, if it is there
  unfoldable pub dir_at : CapabilityRef → Tree A → Option A
  dir_at ref t = Dict.lookup ref.version (versions_of ref.capability_id t)

  unfoldable pub put_dir : CapabilityRef → A → Tree A → Tree A
  put_dir ref dir t =
      Dict.insert ref.capability_id (Dict.insert ref.version dir (versions_of ref.capability_id t))
        t

  -- The directory, if it is there, goes, and its parent with it if that is left empty.
  unfoldable pub drop_dir : CapabilityRef → Tree A → Tree A
  drop_dir ref t =
      if not (Dict.is_some (dir_at ref t))
      then t
      else let left = Dict.erase ref.version (versions_of ref.capability_id t) in
        if is_empty left
        then Dict.erase ref.capability_id t
        else Dict.insert ref.capability_id left t

-- `_install_dir` and `_payload_dir`: the reference, if both names are safe.
unfoldable pub safe_ref : CapabilityRef → Result CapabilityRef
safe_ref ref =
    Error.◌>>=◌ (safe_dirname ref.capability_id)
      λ _. Error.◌>>=◌ (safe_dirname ref.version) λ _. ok ref

abbrev pub read_manifest : CapabilityRef → Option InstallDir → Result Fields
read_manifest ref none =
    err (not_found_error ("capability not installed: " <> ref.capability_id <> "@" <> ref.version))
read_manifest ref (some dir) = elim dir.manifest [
  | absent ↦
      err
        (not_found_error ("capability not installed: " <> ref.capability_id <> "@" <> ref.version))
  | broken ↦ err (manifest_error "invalid installed manifest")
  | holds v ↦ elim v [ obj m ↦ ok m | _ ↦ err (manifest_error "invalid installed manifest root") ]
]

unfoldable pub get_manifest : CapabilityRef → Op Fields
get_manifest ref = do
  _ ← lift (safe_ref ref)
  reads (λ s. read_manifest ref (dir_at ref s.manifests))

-- `{"installed_at": now}` updated by `meta`
abbrev pub meta_out : Number → Option Fields → Fields
meta_out now none = field "installed_at" (num now) end
meta_out now (some meta) = of_entries (Dict.update (("installed_at", num now) ∷ []) (entries meta))

-- the reference that `put_manifest` reads from the manifest
unfoldable pub ref_of : ⦃py : Python⦄ → Fields → CapabilityRef
ref_of manifest = record {
  capability_id = to_text (get "id" manifest);
  version = to_text (get "version" manifest);
}

unfoldable pub put_manifest : ⦃py : Python⦄ → Number → Fields → Option Fields → Op CapabilityRef
put_manifest now manifest meta = do
  let ref = ref_of manifest
  _ ← lift (safe_ref ref)
  modify λ s. record s {
    manifests =
        put_dir ref
          (record { manifest = holds (obj manifest); meta = holds (obj (meta_out now meta)) })
          s.manifests;
  }
  pure ref

-- `sources` is what the paths outside the store hold.
abbrev pub copy_payload : CapabilityRef → Option Payload → String → Op (Unit {0})
copy_payload ref none src_path = raise (manifest_error ("origin.path does not exist: " <> src_path))
copy_payload ref (some payload) src_path = do
  _ ← lift (safe_ref ref)
  modify λ s. record s { payloads = put_dir ref payload s.payloads }

unfoldable pub put_payload_from_path :
    (String → Option Payload) → CapabilityRef → String → Op (Unit {0})
put_payload_from_path sources ref src_path = copy_payload ref (sources src_path) src_path

unfoldable pub remove : CapabilityRef → Op Bool
remove ref = do
  _ ← lift (safe_ref ref)
  removed ← gets (λ s. Dict.is_some (dir_at ref s.manifests))
  modify λ s. record s { manifests = drop_dir ref s.manifests; payloads = drop_dir ref s.payloads }
  pure removed

abbrev pub has_manifest : InstallDir → Bool
has_manifest dir = elim dir.manifest [ absent ↦ false | _ ↦ true ]

abbrev installed_versions : String → Dict InstallDir → List CapabilityRef
installed_versions id [] = []
installed_versions id ((version, dir) ∷ rest) =
    let others = installed_versions id rest in
    if has_manifest dir then record { capability_id = id; version = version } ∷ others else others

abbrev pub text_lt : String → String → Bool
text_lt s t = elim (compare s t) [ Ordering.lt ↦ true | _ ↦ false ]

-- the order of the pairs (id, version)
abbrev ref_lt : CapabilityRef → CapabilityRef → Bool
ref_lt a b =
    text_lt a.capability_id b.capability_id
    || (a.capability_id == b.capability_id && text_lt a.version b.version)

abbrev insert_ref : CapabilityRef → List CapabilityRef → List CapabilityRef
insert_ref r [] = r ∷ []
insert_ref r (q ∷ qs) = let rest = insert_ref r qs in if ref_lt q r then q ∷ rest else r ∷ q ∷ qs

abbrev insert_refs : List CapabilityRef → List CapabilityRef → List CapabilityRef
insert_refs [] sorted = sorted
insert_refs (r ∷ rs) sorted = insert_ref r (insert_refs rs sorted)

unfoldable pub list_installed : Tree InstallDir → List CapabilityRef
list_installed [] = []
list_installed ((id, versions) ∷ t) =
    insert_refs (installed_versions id versions) (list_installed t)
