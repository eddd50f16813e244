-- ===== src/Resolver/Installed/Effect.antt =====
-- What a successful `install` of src/resolver.py leaves in the catalogs.
use unison_capabilities.Base.{String, ◌≡◌, ap, ◌∙◌, inl, inr, none, some, arith}
use unison_capabilities.Base.Dict
use unison_capabilities.Base.Dict.{Dict}
use unison_capabilities.Value.{Value, Fields, end, field, obj, Python, get}
use unison_capabilities.Error.{ok, Result-cases}
use unison_capabilities.Schema.{Validator}
use unison_capabilities.Egress.{Network}
use unison_capabilities.Discovery.{Hashing}
use unison_capabilities.Store.{
  CapabilityStore, CapabilityRef, id_of, load_catalog_file, upsert_local,
}
use unison_capabilities.Store.Effects.{Holds, upsert_local_effect, upsert_local_iff}
use unison_capabilities.Store.Artifacts.{put_payload_from_path}
use unison_capabilities.Installer.{install_manifest_atomic, install_ref, stage_name}
use unison_capabilities.Installer.Atomic.{install_manifest_atomic-IsAtomic}
use unison_capabilities.Resolver.{Setup}
use unison_capabilities.Resolver.Accept.{accept}
use unison_capabilities.Resolver.Install.{install, install_candidate, install_accepted, copy_origin}
use unison_capabilities.Resolver.Installed.{IsAccepted, accept_sound}

-- No stage of the installer has the fresh name yet.
abbrev pub IsFresh : ⦃py : Python⦄ → String → CapabilityStore → Type 0
IsFresh token s = (m : Fields) → Dict.lookup (stage_name (install_ref m) token) s.staging ≡ none

module _ ⦃py : Python⦄ ⦃validator : Validator⦄ where
  same_catalogs :
      (s t : CapabilityStore) (base local : Dict Fields)
      → t.base_catalog ≡ s.base_catalog
      → t.local_catalog ≡ s.local_catalog
      → Holds s base local
      → Holds t base local
  same_catalogs s t base local b l h = record {
    base_read = ap load_catalog_file b ∙ h.base_read;
    local_read = ap load_catalog_file l ∙ h.local_read;
  }

  upsert_local_lem :
      (s : CapabilityStore) (base local : Dict Fields) (m : Fields)
      → Holds s base local
      → (upsert_local m s).0 ≡ ok tt
      → Holds (upsert_local m s).1 base (Dict.insert (id_of m) m local)
  upsert_local_lem s base local m h e =
      let (valid, named, _) = (upsert_local_iff s m).0 e in
      let (s', ran, _, after) = upsert_local_effect s base local m h valid named in rw ran after

  install_accepted_lem :
      (setup : Setup) (token : String) (candidate m : Fields) (s : CapabilityStore)
      → (base local : Dict Fields) (ref : CapabilityRef) → Holds s base local
      → IsFresh token s
      → (install_accepted setup token candidate m s).0 ≡ ok ref
      → Holds (install_accepted setup token candidate m s).1 base (Dict.insert (id_of m) m local)
  unfolding install_accepted
  install_accepted_lem setup token candidate m s base local ref h fresh e =
      let meta = some (field "installed_via" (get "source" candidate) end) in
      let atomic = install_manifest_atomic-IsAtomic setup.disk token m meta s (fresh m) in
      let t = (install_manifest_atomic setup.disk token m meta s).1 in
      let held = same_catalogs s t base local atomic.base atomic.local h in
      elim (Result-cases (install_manifest_atomic setup.disk token m meta s).0) [
        | inr (x, failed) ↦ absurd (ground (arith, failed, e))
        | inl (res, done) ↦ elim (Result-cases (upsert_local m t).0) [
          | inr (x, failed) ↦ absurd (ground (arith, failed, done, e))
          | inl (tt, wrote) ↦ rw (done, wrote) (upsert_local_lem t base local m held wrote)
        ]
      ]

  copy_origin_lem :
      (setup : Setup) (candidate : Fields) (ref : CapabilityRef) (s : CapabilityStore)
      → ((copy_origin setup candidate ref s).1.base_catalog ≡ s.base_catalog)
        × ((copy_origin setup candidate ref s).1.local_catalog ≡ s.local_catalog)
  unfolding copy_origin put_payload_from_path
  copy_origin_lem setup candidate ref s = (ground arith, ground arith)

module _ ⦃py : Python⦄ ⦃validator : Validator⦄ ⦃hash : Hashing⦄ ⦃net : Network⦄ where
  -- An installation that returns has accepted a manifest and put it into the local catalog under
  -- its id, beside what was there; the base catalog reads as before. The name of its staging
  -- directory is fresh.
  pub install_effect :
      (setup : Setup) (token : String) (candidate : Fields) (s : CapabilityStore)
      → (base local : Dict Fields) (v : Value) → Holds s base local
      → IsFresh token s
      → (install setup token (obj candidate) s).0 ≡ ok v
      → (m : Fields) × IsAccepted setup candidate m
        × Holds (install setup token (obj candidate) s).1 base (Dict.insert (id_of m) m local)
  unfolding install_candidate
  install_effect setup token candidate s base local v h fresh e =
      elim (Result-cases (accept setup candidate)) [
        | inr (x, refused) ↦ absurd (ground (arith, refused, e))
        | inl (m, accepted) ↦
            let next = install_accepted setup token candidate m s in
            elim (Result-cases next.0) [
              | inr (x, failed) ↦ absurd (ground (arith, accepted, failed, e))
              | inl (ref, done) ↦
                  let held =
                    install_accepted_lem setup token candidate m s base local ref h fresh done in
                  let (b, l) = copy_origin_lem setup candidate ref next.1 in
                  let last = (copy_origin setup candidate ref next.1).1 in
                  (
                    m,
                    accept_sound setup candidate m accepted,
                    rw (accepted, done)
                        (same_catalogs next.1 last base (Dict.insert (id_of m) m local) b l held),
                  )
            ]
      ]
