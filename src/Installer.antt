-- ===== src/Installer.antt =====
-- src/installer.py: staged installation. The disk may raise at any step, and it may leave a part of
-- the staged directory when that is removed.
pub mod Atomic
use unison_capabilities.Base.{
  String, ◌<>◌, Bool, true, false, not, ◌&&◌, ◌||◌, Option, none, some, [], ◌==◌, if◌then◌else◌,
}
use unison_capabilities.Base.Dict
use unison_capabilities.Value.{Value, Fields, end, field, obj, Python, get, text_or_empty, null}
use unison_capabilities.Error.{Error, Result, ok, err, install_error, python_error, message}
use unison_capabilities.Exec.{Exec, pure, raise, lift, gets, modify, ◌>>=◌, ◌>>◌}
use unison_capabilities.Store.{
  File, absent, holds, InstallDir, Tree, CapabilityStore, CapabilityRef, Op,
}
use unison_capabilities.Store.Artifacts.{dir_at, put_dir, safe_ref, has_manifest}

-- The steps of the `try` block at which the disk may raise.
pub data Step : Type 0 where
  make_stage write_manifest write_meta make_parent sync_before promote sync_after : Step

-- The steps that raise, with the exception's text; and what `rmtree`, whose errors are ignored,
-- leaves of a directory.
pub record Disk : Type 0 where
  pub fault : Step → Option String
  pub residue : InstallDir → Option InstallDir

pub record InstallResult : Type 0 where
  pub ref : CapabilityRef
  pub updated : Bool

abbrev pub raise_fault : Option String → Op (Unit {0})
raise_fault none = pure tt
raise_fault (some text) = raise (python_error text)

-- the step raises, or its write is done
abbrev at_step : Disk → Step → Op (Unit {0}) → Op (Unit {0})
at_step disk step write = raise_fault (disk.fault step) >> write

abbrev pub stage_dir : String → InstallDir → Op (Unit {0})
stage_dir stage dir = modify λ s. record s { staging = Dict.insert stage dir s.staging }

-- `stage.mkdir(exist_ok=False)`
abbrev pub new_stage : String → Op (Unit {0})
new_stage stage = do
  taken ← gets (λ s. Dict.has_key stage s.staging)
  if taken
      then raise (python_error "FileExistsError")
      else stage_dir stage (record { manifest = absent; meta = absent })

abbrev is_empty_dir : InstallDir → Bool
is_empty_dir dir = elim dir.meta [ absent ↦ not (has_manifest dir) | _ ↦ false ]

-- `os.replace` of a directory: it cannot take the place of one that is not empty
abbrev blocked : Option InstallDir → Bool
blocked none = false
blocked (some dir) = not (is_empty_dir dir)

-- `{"installed_via": (meta or {}).get("installed_via")} if isinstance(meta, dict) else {}`
abbrev pub install_meta : Option Fields → Fields
install_meta none = end
install_meta (some meta) = field "installed_via" (get "installed_via" meta) end

abbrev pub installed_dir : Fields → Option Fields → InstallDir
installed_dir manifest meta = record {
  manifest = holds (obj manifest);
  meta = holds (obj (install_meta meta));
}

-- the `try` block up to the promotion
unfoldable pub stage_files : Disk → String → Fields → Option Fields → Op (Unit {0})
stage_files disk stage manifest meta = do
  at_step disk make_stage (new_stage stage)
  at_step disk write_manifest
      (stage_dir stage (record { manifest = holds (obj manifest); meta = absent }))
  at_step disk write_meta (stage_dir stage (installed_dir manifest meta))

-- the directory of the capability, which is empty where it is new
abbrev pub with_parent : String → Tree InstallDir → Tree InstallDir
with_parent id t = if Dict.has_key id t then t else Dict.insert id [] t

-- the rest of it
unfoldable pub promote_stage : Disk → CapabilityRef → InstallDir → Op InstallResult
promote_stage disk ref dir = do
  raise_fault (disk.fault make_parent)
  modify λ s. record s { manifests = with_parent ref.capability_id s.manifests }
  raise_fault (disk.fault sync_before)
  raise_fault (disk.fault promote)
  taken ← gets (λ s. blocked (dir_at ref s.manifests))
  if taken then pure (record { ref = ref; updated = false }) else do
    modify λ s. record s { manifests = put_dir ref dir s.manifests }
    raise_fault (disk.fault sync_after)
    pure (record { ref = ref; updated = true })

unfoldable pub stage_and_promote :
    Disk → String → CapabilityRef → Fields → Option Fields → Op InstallResult
stage_and_promote disk stage ref manifest meta = do
  stage_files disk stage manifest meta
  promote_stage disk ref (installed_dir manifest meta)

abbrev install_failed : Result InstallResult → Result InstallResult
install_failed (ok r) = ok r
install_failed (err e) = err (install_error ("install failed: " <> message e))

-- `except Exception … finally: shutil.rmtree(stage, ignore_errors=True)`
abbrev pub left_over : Disk → Option InstallDir → Option InstallDir
left_over disk none = none
left_over disk (some dir) = disk.residue dir

abbrev pub remains : String → Option InstallDir → Dict.Dict InstallDir → Dict.Dict InstallDir
remains stage none staging = Dict.erase stage staging
remains stage (some dir) staging = Dict.insert stage dir staging

abbrev cleaned :
    Disk → String → Result InstallResult × CapabilityStore → Result InstallResult × CapabilityStore
cleaned disk stage (r, s) = (
  install_failed r,
  record s { staging = remains stage (left_over disk (Dict.lookup stage s.staging)) s.staging },
)

-- `token` is the fresh name of `uuid.uuid4`.
unfoldable pub stage_name : CapabilityRef → String → String
stage_name ref token = ref.capability_id <> "@" <> ref.version <> "." <> token

abbrev pub installed_at : Option InstallDir → Bool
installed_at none = false
installed_at (some dir) = has_manifest dir

-- `str(manifest.get("id") or "")` and the same of `version`
unfoldable pub install_ref : ⦃py : Python⦄ → Fields → CapabilityRef
install_ref manifest = record {
  capability_id = text_or_empty (get "id" manifest);
  version = text_or_empty (get "version" manifest);
}

-- the rest of the method, for a reference with both names
unfoldable pub install_at :
    Disk → String → CapabilityRef → Fields → Option Fields → Op InstallResult
install_at disk token ref manifest meta = do
  _ ← lift (safe_ref ref)
  there ← gets (λ s. installed_at (dir_at ref s.manifests))
  if there then pure (record { ref = ref; updated = false }) else λ s.
      let stage = stage_name ref token in
      cleaned disk stage (stage_and_promote disk stage ref manifest meta s)

unfoldable pub install_manifest_atomic :
    ⦃py : Python⦄ → Disk → String → Fields → Option Fields → Op InstallResult
install_manifest_atomic disk token manifest meta =
    let ref = install_ref manifest in
    if ref.capability_id == "" || ref.version == ""
    then raise (install_error "manifest must include id and version")
    else install_at disk token ref manifest meta
