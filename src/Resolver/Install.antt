-- ===== src/Resolver/Install.antt =====
-- The second half of `install` of src/resolver.py: what is written for an accepted manifest.
use unison_capabilities.Base.{String, not, ◌&&◌, Option, none, some, ◌==◌, if◌then◌else◌}
use unison_capabilities.Value.{
  Value, Fields, end, field, obj, str, Python, get, dict_or_empty, is_text,
}
use unison_capabilities.Error.{install_error}
use unison_capabilities.Exec.{pure, raise, lift, ignore, ◌>>=◌, ◌>>◌}
use unison_capabilities.Schema.{Validator}
use unison_capabilities.Egress.{Network}
use unison_capabilities.Discovery.{Hashing}
use unison_capabilities.Store.{CapabilityRef, Op, upsert_local}
use unison_capabilities.Store.Artifacts.{put_payload_from_path}
use unison_capabilities.Installer.{install_manifest_atomic}
use unison_capabilities.Resolver.{Setup}
use unison_capabilities.Resolver.Accept.{accept}

-- the path to copy from, where the origin is local and names one
abbrev pub local_path : Value → Value → Option String
local_path source (str path) =
    if is_text "local" source && not (path == "") then some path else none
local_path source v = none

abbrev pub copy_local : Setup → CapabilityRef → Option String → Op (Unit {0})
copy_local setup ref none = pure tt
copy_local setup ref (some path) = ignore (put_payload_from_path setup.sources ref path)

abbrev pub installed_reply : CapabilityRef → Value
installed_reply ref = obj (
    field "installed"
      (obj (field "id" (str ref.capability_id) (field "version" (str ref.version) end))) end)

unfoldable pub origin_of : Fields → Fields
origin_of candidate = dict_or_empty (get "origin" (dict_or_empty (get "manifest" candidate)))

module _ ⦃py : Python⦄ ⦃validator : Validator⦄ where
  -- `token` is the fresh name of the installer's staging directory.
  unfoldable pub install_accepted : Setup → String → Fields → Fields → Op CapabilityRef
  install_accepted setup token candidate manifest = do
    res ←
        install_manifest_atomic setup.disk token manifest
          (some (field "installed_via" (get "source" candidate) end))
    upsert_local manifest
    pure res.ref

  unfoldable pub copy_origin : Setup → Fields → CapabilityRef → Op Value
  copy_origin setup candidate ref = do
    let origin = origin_of candidate
    copy_local setup ref (local_path (get "source" origin) (get "path" origin))
    pure (installed_reply ref)

module _ ⦃py : Python⦄ ⦃validator : Validator⦄ ⦃hash : Hashing⦄ ⦃net : Network⦄ where
  unfoldable pub install_candidate : Setup → String → Fields → Op Value
  install_candidate setup token candidate = do
    manifest ← lift (accept setup candidate)
    ref ← install_accepted setup token candidate manifest
    copy_origin setup candidate ref

  abbrev pub install : Setup → String → Value → Op Value
  install setup token (obj candidate) = install_candidate setup token candidate
  install setup token v = raise (install_error "candidate.manifest required")
