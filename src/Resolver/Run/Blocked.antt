-- ===== src/Resolver/Run/Blocked.antt =====
-- `run` of src/resolver.py beside the schema of the manifests, which has no place for governance.
use unison_capabilities.Base.{
  ℕ, String, ◌≡◌, ◌≢◌, sym, ◌∙◌, inl, inr, true, Option, none, some, [], ◌∷◌, arith, ◌==◌, eq_iff,
  lower, Bool-cases, Option-cases,
}
use unison_capabilities.Base.Dict
use unison_capabilities.Base.Dict.{Dict, override}
use unison_capabilities.Value.{Value, Fields, obj, null, Python, get, is_text}
use unison_capabilities.Error.{ok, Result-cases}
use unison_capabilities.Schema.{Validator, IsValid, validate_manifest_iff}
use unison_capabilities.Policy.{env_or}
use unison_capabilities.Governance.{governance_v1}
use unison_capabilities.Store.{CapabilityStore, load_catalog_file, merged_catalog}
use unison_capabilities.Store.Catalog.{IsCatalog, load-IsCatalog}
use unison_capabilities.Store.Effects.{Holds, merged_lookup}
use unison_capabilities.Resolver.{get_capability, pick}
use unison_capabilities.Resolver.Run.{Engine, Service, needs_authority, run}
use unison_capabilities.Resolver.Run.Sound.{Refused, run_outcome}

-- A schema that has no `governance_version` and allows no further properties.
abbrev pub RejectsGovernance : ⦃validator : Validator⦄ → Type 0
RejectsGovernance ⦃validator = validator⦄ =
    (m : Fields) → get "governance_version" m ≢ null → validator.iter_errors m ≢ []

module _ ⦃py : Python⦄ ⦃validator : Validator⦄ where
  catalog-IsValid :
      (d : Dict Fields) (k : String) (m : Fields)
      → IsCatalog d
      → Dict.lookup k d ≡ some m
      → IsValid m
  unfolding Dict.lookup
  catalog-IsValid [] k m h e = cc
  catalog-IsValid ((j, w) ∷ d) k m (same, ne, valid, fresh, rest) e = elim (Bool-cases (j == k)) [
    | inl here ↦ let is_m : w ≡ m = ground arith in rw is_m at valid
    | inr other ↦ catalog-IsValid d k m rest (ground arith)
  ]

  shown-IsValid :
      (s : CapabilityStore) (base local : Dict Fields) (k : String) (m : Fields)
      → Holds s base local
      → override (Dict.lookup k local) (Dict.lookup k base) ≡ some m
      → IsValid m
  shown-IsValid s base local k m h shown = elim (Option-cases (Dict.lookup k local)) [
    | inl missing ↦
        catalog-IsValid base k m (load-IsCatalog s.base_catalog base h.base_read)
          (rw missing at shown)
    | inr (w, found) ↦
        catalog-IsValid local k m (load-IsCatalog s.local_catalog local h.local_read)
          (found ∙ (rw found at shown))
  ]

  pick_lem :
      (id : String) (version : Option String) (o : Option Fields) (m : Fields)
      → pick id version o ≡ ok m
      → o ≡ some m
  pick_lem id version none m h = cc
  pick_lem id version (some w) m h = ground arith

  readable :
      (id : String) (version : Option String) (s : CapabilityStore) (m : Fields)
      → (get_capability id version s).0 ≡ ok m
      → (base : Dict Fields) × ((local : Dict Fields) × Holds s base local)
  unfolding get_capability merged_catalog
  readable id version s m h = elim (Result-cases (load_catalog_file s.base_catalog)) [
    | inr (e, bad) ↦ absurd (ground (arith, bad, h))
    | inl (base, base_read) ↦ elim (Result-cases (load_catalog_file s.local_catalog)) [
      | inr (e, bad) ↦ absurd (ground (arith, base_read, bad, h))
      | inl (local, local_read) ↦
          (base, (local, record { base_read = base_read; local_read = local_read }))
    ]
  ]

  got-IsValid :
      (id : String) (version : Option String) (s : CapabilityStore) (m : Fields)
      → (get_capability id version s).0 ≡ ok m
      → IsValid m
  unfolding get_capability
  got-IsValid id version s m h =
      let (base, (local, held)) = readable id version s m h in
      let (d, merged, look) = merged_lookup s base local held in
      let shown = pick_lem id version (Dict.lookup id d) m (rw merged at h) in
      shown-IsValid s base local id m held (sym (look id) ∙ shown)

not_null : (v : Value) → is_text governance_v1 v ≡ true → v ≢ null
not_null null h = λ e. cc
not_null _ h = λ e. cc

module _ {World : Type 0} ⦃py : Python⦄ ⦃validator : Validator⦄ where
  -- With a schema that has no place for governance, and without the flag for legacy capabilities,
  -- no run ever reaches the engine: every one is refused.
  pub run_blocked :
      (engine : Engine (CapabilityStore × World)) (now : ℕ) (legacy : Option String) (id : String)
      (args : Fields)
      → (s : Service World) → RejectsGovernance
      → lower (env_or "false" legacy) ≢ "true"
      → Refused s (run engine now legacy id (obj args) s)
  unfolding needs_authority
  run_blocked engine now legacy id args s rejects off =
      elim (run_outcome engine now legacy id args s) [
        | inr refused ↦ refused
        | inl ran ↦
            let needed : needs_authority legacy ran.manifest ≡ true =
              ground (arith, off, eq_iff (lower (env_or "false" legacy)) "true") in
            let spent = ran.spent needed in
            let version =
              not_null (get "governance_version" ran.manifest) spent.authorized.governed.version in
            let valid = got-IsValid id _ s.store ran.manifest ran.found in
            absurd (rejects ran.manifest version ((validate_manifest_iff ran.manifest).0 valid))
      ]
