-- ===== src/Tests/Stores.antt =====
-- The store and the installer on concrete inputs.
use unison_capabilities.Base.{String, ◌≡◌, refl, false, none, some, has_text, strip}
use unison_capabilities.Base.Dict
use unison_capabilities.Base.Dict.{Dict, override}
use unison_capabilities.Value.{Number, decimal, get}
use unison_capabilities.Error.{ok, is_ok}
use unison_capabilities.Store.{CapabilityStore, CapabilityRef, safe_dirname}
use unison_capabilities.Store.Artifacts.{ref_of, safe_ref, dir_at, put_manifest, get_manifest}
use unison_capabilities.Store.Artifacts.Laws.{same_ref}
use unison_capabilities.Store.Artifacts.Effects.{get_manifest-put_manifest}
use unison_capabilities.Installer.{Disk, write_meta}
use unison_capabilities.Tests.Fixtures.{plain_python, lax_schema, echo, base_only}

safe_dirname_tests :
    (safe_dirname "demo.echo" ≡ ok "demo.echo")
    × (is_ok (safe_dirname "../etc") ≡ false)
    × (is_ok (safe_dirname " x") ≡ false)
unfolding safe_dirname strip has_text
safe_dirname_tests = (refl, refl, refl)

abbrev up : String
up = "../etc"

abbrev noon : Number
noon = decimal false 1767268800 0

get_manifest-put_manifest_example :
    (s' : CapabilityStore) × (put_manifest noon echo none base_only ≡ (ok (ref_of echo), s'))
    × (get_manifest (ref_of echo) s' ≡ (ok echo, s'))
    × (s' ≡ record base_only { manifests = s'.manifests })
    × ((q : CapabilityRef)
        → same_ref (ref_of echo) q ≡ false
        → dir_at q s'.manifests ≡ dir_at q base_only.manifests)
unfolding safe_ref safe_dirname ref_of get Dict.lookup strip has_text
get_manifest-put_manifest_example = get_manifest-put_manifest noon echo none base_only refl

abbrev echo_ref : CapabilityRef
echo_ref = record { capability_id = "demo.echo"; version = "0.1.0" }

-- the disk raises while it writes the second file, and nothing of the stage can be removed
abbrev bad_disk : Disk
bad_disk = record {
  fault = λ step. elim step [ write_meta ↦ some "disk full" | _ ↦ none ];
  residue = λ dir. some dir;
}
