-- ===== src/Resolver.antt =====
-- src/resolver.py: the catalog views, the search, the installation and the run of a capability.
-- The lock is held while a method reads or writes the store, so a method is one step; the lock is in
-- Locks, and the HTTP client and the execution engine (Execution has it) are parameters.
pub mod Search
pub mod Accept
pub mod Install
pub mod Installed
pub mod Run
pub mod Remove
use unison_capabilities.Base.{
  ℕ, zero, ◌+◌, String, ◌<>◌, Bool, true, false, not, ◌&&◌, ◌||◌, Option, none, some, List, [], ◌∷◌,
  ◌++◌, ◌==◌, ltb, any, keep_if, is_empty, strip, lower, starts_with, member, drop_text,
  if◌then◌else◌,
}
use unison_capabilities.Base.Dict
use unison_capabilities.Base.Dict.{Dict}
use unison_capabilities.Value.{
  Value, Fields, end, field, obj, arr, cons, str, bool, null, items, Python, get, has,
  dict_or_empty, list_or_empty, text_or_empty, to_text, truthy, as_dict, as_text, is_text,
  get_default,
}
use unison_capabilities.Value.Compare.{in_set}
use unison_capabilities.Error
use unison_capabilities.Error.{
  Error, Result, ok, err, not_found_error, manifest_error, install_error, attempt, message,
  raise_if,
}
use unison_capabilities.Exec.{Exec, pure, raise, lift, gets, reads, modify, ignore, ◌>>=◌, ◌>>◌}
use unison_capabilities.Schema.{Validator, validate_manifest}
use unison_capabilities.Egress.{Network, EgressConfig, request}
use unison_capabilities.Policy.{CapabilityPolicy, env_or, enforce_install, enforce_run, get_in}
use unison_capabilities.Governance.{ReplayGuard, authorize_execution, consume, governance_v1}
use unison_capabilities.Discovery.{
  Hashing, Candidate, Score, RegistryAdapter, candidate_id_for, score_manifest, sort_by_score,
}
use unison_capabilities.Store.{
  CapabilityStore, CapabilityRef, Payload, Op, merged_catalog, upsert_local, delete_local,
  set_local_enabled,
}
use unison_capabilities.Store.Artifacts.{remove as remove_artifacts, put_payload_from_path, text_lt}
use unison_capabilities.Installer.{Disk, InstallResult, install_manifest_atomic}

unfoldable pub normalize_digest : String → String
normalize_digest digest =
    let d = lower (strip digest) in if starts_with d "sha256:" then drop_text 7 d else d

abbrev pub summary : Fields → Value
summary m = obj (
    field "id" (get "id" m) (
      field "version" (get "version" m) (
        field "type" (get "type" m) (
          field "description" (get "description" m) (
            field "trust_level" (get "trust_level" m) (
              field "enabled" (get_default "enabled" (bool true) m)
                (field "requires_oauth" (get_default "requires_oauth" (bool false) m) end)))))))

unfoldable pub insert_by_id : String → Fields → Dict Fields → Dict Fields
insert_by_id k m [] = (k, m) ∷ []
insert_by_id k m ((j, w) ∷ d) =
    let rest = insert_by_id k m d in if text_lt j k then (j, w) ∷ rest else (k, m) ∷ (j, w) ∷ d

-- `sorted(d.items())`
unfoldable pub sorted_items : Dict Fields → Dict Fields
sorted_items [] = []
sorted_items ((k, m) ∷ d) = insert_by_id k m (sorted_items d)

abbrev pub summaries : Dict Fields → List Value
summaries [] = []
summaries ((k, m) ∷ d) = summary m ∷ summaries d

-- What the resolver is built with, and what its methods take from outside: the HTTP client, the
-- disk and the files outside the store.
pub record Setup : Type 0 where
  pub policy : CapabilityPolicy
  pub registries : List RegistryAdapter
  pub egress : Option EgressConfig
  pub http_client : String → Result Value
  pub disk : Disk
  pub sources : String → Option Payload

-- `not version or str(m.get("version")) == version`
unfoldable pub is_version : ⦃py : Python⦄ → Option String → Fields → Bool
is_version none m = true
is_version (some v) m = v == "" || to_text (get "version" m) == v

module _ ⦃py : Python⦄ ⦃validator : Validator⦄ where
  unfoldable pub list : Op (List Value)
  list = do merged ← merged_catalog; pure (summaries (sorted_items merged))

  abbrev pub pick : String → Option String → Option Fields → Result Fields
  pick capability_id version none =
      err (not_found_error ("capability not found: " <> capability_id))
  pick capability_id version (some m) =
      if is_version version m
      then ok m
      else err (
          not_found_error
            ("capability version not found: " <> capability_id <> "@" <> env_or "" version))

  unfoldable pub get_capability : String → Option String → Op Fields
  get_capability capability_id version = do
    merged ← merged_catalog
    lift (pick capability_id version (Dict.lookup capability_id merged))

  unfoldable pub remove : String → String → Op Bool
  remove capability_id version = do
    merged ← merged_catalog
    if not (Dict.has_key capability_id merged) then pure false else do
      removed_local ← delete_local capability_id
      if removed_local then pure tt else set_local_enabled capability_id false
      ignore (remove_artifacts (record { capability_id = capability_id; version = version }))
      pure true

module _ ⦃py : Python⦄ where
  abbrev pub or_none : Result (List Candidate) → List Candidate
  or_none (ok cs) = cs
  or_none (err e) = []

  -- An adapter that raises is passed over.
  abbrev pub registry_candidates : String → Fields → List RegistryAdapter → List Candidate
  registry_candidates intent constraints [] = []
  registry_candidates intent constraints (reg ∷ regs) =
      or_none (reg.list intent constraints) ++ registry_candidates intent constraints regs

  abbrev pub texts : List Value → List String
  texts [] = []
  texts (v ∷ vs) = to_text v ∷ texts vs

  -- `str(c.manifest.get("trust_level")) in allow_set`
  unfoldable pub is_trusted : List String → Candidate → Bool
  is_trusted allow_set c = member (to_text (get "trust_level" c.manifest)) allow_set

  unfoldable pub constrain : Value → List Candidate → List Candidate
  constrain (arr (cons v vs)) cs = keep_if (is_trusted (texts (v ∷ items vs))) cs
  constrain _ cs = cs

  -- `c.source == "catalog"`, or the policy allows its installation
  unfoldable pub is_eligible : CapabilityPolicy → Candidate → Bool
  is_eligible policy c = c.source == "catalog" || Error.is_ok (enforce_install policy c.manifest)

  unfoldable pub first_eligible : CapabilityPolicy → String → List Candidate → Result Candidate
  first_eligible policy intent [] =
      err (not_found_error ("no policy-allowed candidates for intent: " <> intent))
  first_eligible policy intent (c ∷ cs) =
      let rest = first_eligible policy intent cs in if is_eligible policy c then ok c else rest

  abbrev pub choose : CapabilityPolicy → String → List Candidate → Result Candidate
  choose policy intent [] = err (not_found_error ("no candidates found for intent: " <> intent))
  choose policy intent cs = first_eligible policy intent cs

module _ ⦃py : Python⦄ ⦃validator : Validator⦄ ⦃hash : Hashing⦄ where
  abbrev pub catalog_score : Score → Score
  catalog_score s = if ltb s.lost s.gained then record s { gained = s.gained + 40 } else s

  unfoldable pub catalog_candidate : String → Fields → Candidate
  catalog_candidate intent manifest = record {
    candidate_id = candidate_id_for manifest "catalog";
    manifest = manifest;
    source = "catalog";
    score = catalog_score (score_manifest intent manifest);
    manifest_url = none;
  }

  abbrev pub catalog_candidates : String → Dict Fields → List Candidate
  catalog_candidates intent [] = []
  catalog_candidates intent ((k, m) ∷ d) = catalog_candidate intent m ∷ catalog_candidates intent d

  unfoldable pub search : Setup → String → Fields → Op (List Candidate)
  search setup intent constraints = do
    merged ← merged_catalog
    let found =
        catalog_candidates intent merged ++ registry_candidates intent constraints setup.registries
    pure (sort_by_score (constrain (get "trust_allow" constraints) found))

  unfoldable pub resolve_step : Setup → Fields → Op Candidate
  resolve_step setup step = do
    let intent = text_or_empty (get "intent" step)
    if intent == "" then raise (manifest_error "step.intent required") else do
      candidates ← search setup intent (dict_or_empty (get "constraints" step))
      lift (choose setup.policy intent candidates)

  abbrev pub resolve : Setup → Value → Op Candidate
  resolve setup (obj step) = resolve_step setup step
  resolve setup v = raise (manifest_error "step must be an object")
