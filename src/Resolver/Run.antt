-- ===== src/Resolver/Run.antt =====
-- `run` of src/resolver.py.
pub mod Sound
pub mod Blocked
use unison_capabilities.Base.{
  ℕ, String, Bool, true, false, not, ◌||◌, Option, none, some, List, [], ◌∷◌, ◌==◌, lower,
  if◌then◌else◌,
}
use unison_capabilities.Value.{
  Value, Fields, obj, null, Python, get, dict_or_empty, is_text, to_text, truthy, text_if_truthy,
}
use unison_capabilities.Value.Compare.{in_set}
use unison_capabilities.Error
use unison_capabilities.Error.{Error, Result, ok, err, manifest_error}
use unison_capabilities.Exec.{Exec, pure, raise, lift, reads, ◌>>=◌, ◌>>◌}
use unison_capabilities.Schema.{Validator}
use unison_capabilities.Policy.{enforce_run, env_or}
use unison_capabilities.Governance.{ReplayGuard, authorize_execution, consume, governance_v1}
use unison_capabilities.Store.{CapabilityStore}
use unison_capabilities.Resolver.{get_capability}

-- What the resolver calls of `execution.ExecutionEngine`; `World` is whatever a run can change. The
-- service gives it the store beside everything else, since a tool can write below the store's
-- directory.
pub record Engine (World : Type 0) : Type 0 where
  pub run : Fields → Fields → Exec World Value

-- The store, `_AUTHORITY_REPLAY_GUARD` and the world.
pub record Service (World : Type 0) : Type 0 where
  pub store : CapabilityStore
  pub guard : ReplayGuard
  pub world : World

abbrev pub if_in : Bool → Value → Value → Value
if_in true v w = v
if_in false v w = w

-- `args.channel`, where it is a channel of the manifest's enum
unfoldable pub fallback_channel : Value → Value → Result Value
fallback_channel requested maybe =
    Error.◌>>=◌ (in_set maybe ("programmatic" ∷ "vdi_vpn" ∷ []))
      λ found. ok (if_in found maybe requested)

abbrev pub first_truthy : Value → Value → Value
first_truthy v w = if truthy v then v else w

unfoldable pub requested_channel : Fields → Result Value
requested_channel args =
    let requested = first_truthy (get "execution_channel" args) (get "requested_channel" args) in
    if truthy requested then ok requested else fallback_channel requested (get "channel" args)

-- The run goes through the authority check, unless the manifest is not governed and
-- `UNISON_CAPABILITY_ALLOW_LEGACY` is true.
unfoldable pub needs_authority : Option String → Fields → Bool
needs_authority allow_legacy manifest =
    is_text governance_v1 (get "governance_version" manifest)
    || not (lower (env_or "false" allow_legacy) == "true")

module _ {World A : Type 0} where
  abbrev pub on_store : Exec CapabilityStore A → Exec (Service World) A
  on_store m s = let (r, store) = m s.store in (r, record s { store = store })

  abbrev pub on_guard : (ReplayGuard → Result A × ReplayGuard) → Exec (Service World) A
  on_guard m s = let (r, guard) = m s.guard in (r, record s { guard = guard })

  -- the engine, which may change the store as well as the world
  abbrev pub on_disk : Exec (CapabilityStore × World) A → Exec (Service World) A
  on_disk m s =
      let (r, (store, world)) = m (s.store, s.world) in
      (r, record s { store = store; world = world })

module _ {World : Type 0} ⦃py : Python⦄ ⦃validator : Validator⦄ where
  -- `authority["nonce"]` is there once the authority is complete.
  unfoldable pub take_authority : ℕ → Fields → Fields → Exec (Service World) (Unit {0})
  take_authority now manifest args = do
    let authority = dict_or_empty (get "authority" args)
    lift (authorize_execution now [] manifest authority)
    on_guard (consume (to_text (get "nonce" authority)))

  -- the checks on a manifest that was found
  unfoldable pub admit :
      ℕ → Option String → Fields → Fields → Value → Exec (Service World) (Unit {0})
  admit now allow_legacy manifest args requested = do
    lift (enforce_run manifest (text_if_truthy requested))
    if needs_authority allow_legacy manifest then take_authority now manifest args else pure tt

  unfoldable pub run_capability :
      Engine (CapabilityStore × World)
      → ℕ
      → Option String
      → String
      → Fields
      → Exec (Service World) Value
  run_capability engine now allow_legacy capability_id args = do
    requested ← lift (requested_channel args)
    manifest ← on_store (get_capability capability_id (text_if_truthy (get "version" args)))
    admit now allow_legacy manifest args requested
    on_disk (engine.run manifest args)

  abbrev pub run :
      Engine (CapabilityStore × World)
      → ℕ
      → Option String
      → String
      → Value
      → Exec (Service World) Value
  run engine now allow_legacy capability_id (obj args) =
      run_capability engine now allow_legacy capability_id args
  run engine now allow_legacy capability_id v = raise (manifest_error "args must be an object")
