-- ===== src/Resolver/Run/Sound.antt =====
-- What `run` of src/resolver.py guarantees on every path.
use unison_capabilities.Base.{
  ℕ, String, ◌≡◌, refl, ap, ◌⊎◌, inl, inr, true, false, Option, [], ◌∷◌, arith, member,
}
use unison_capabilities.Value.{
  text_if_truthy, Value, Fields, obj, Python, get, dict_or_empty, to_text,
}
use unison_capabilities.Error.{Result, ok, err, is_ok, Result-cases}
use unison_capabilities.Exec.{◌>>◌}
use unison_capabilities.Schema.{Validator}
use unison_capabilities.Policy.{enforce_run}
use unison_capabilities.Policy.Run.{MayRun, enforce_run_sound}
use unison_capabilities.Governance.{consume}
use unison_capabilities.Governance.Rules.{IsAuthorized, authorize_execution_iff}
use unison_capabilities.Store.{CapabilityStore, merged_catalog}
use unison_capabilities.Resolver.{get_capability}
use unison_capabilities.Resolver.Run.{
  Engine, Service, requested_channel, needs_authority, take_authority, admit, run_capability, run,
  on_disk,
}

abbrev pub authority_of : Fields → Fields
authority_of args = dict_or_empty (get "authority" args)

module _ ⦃py : Python⦄ where
  unfoldable pub nonce_of : Fields → String
  nonce_of args = to_text (get "nonce" (authority_of args))

module _ ⦃py : Python⦄ ⦃validator : Validator⦄ where
  get_capability-same :
      (id : String) (version : Option String) (s : CapabilityStore)
      → (get_capability id version s).1 ≡ s
  unfolding get_capability merged_catalog
  get_capability-same id version s = ground arith

module _ {World : Type 0} ⦃py : Python⦄ ⦃validator : Validator⦄ where
  -- The authority that a run used: valid at `now` for the manifest, and new to the guard.
  pub record Spent (now : ℕ) (m args : Fields) (s s' : Service World) : Type 0 where
    pub authorized : IsAuthorized now [] m (authority_of args)
    pub fresh : member (nonce_of args) s.guard.seen ≡ false
    pub seen : s'.guard.seen ≡ nonce_of args ∷ s.guard.seen

  -- What stays whatever happens before the engine is called.
  record Kept (s s' : Service World) : Type 0 where
    store : s'.store ≡ s.store
    world : s'.world ≡ s.world

  consume_sound :
      (now : ℕ) (m args : Fields) (s : Service World)
      → (take_authority now m args s).0 ≡ ok tt
      → Spent now m args s (take_authority now m args s).1
  unfolding take_authority consume nonce_of
  consume_sound now m args s h = record {
    authorized = (authorize_execution_iff now [] m (authority_of args)).0 (ground arith);
    fresh = ground arith;
    seen = ground arith;
  }

  take_authority-Kept :
      (now : ℕ) (m args : Fields) (s : Service World) → Kept s (take_authority now m args s).1
  unfolding take_authority
  take_authority-Kept now m args s = record { store = ground arith; world = ground arith }

  admit-Kept :
      (now : ℕ) (legacy : Option String) (m args : Fields) (requested : Value) (s : Service World)
      → Kept s (admit now legacy m args requested s).1
  unfolding admit
  admit-Kept now legacy m args requested s =
      let kept = take_authority-Kept now m args s in
      record { store = ground (arith, kept.store); world = ground (arith, kept.world) }

  admit_sound :
      (now : ℕ) (legacy : Option String) (m args : Fields) (requested : Value) (s : Service World)
      → (admit now legacy m args requested s).0 ≡ ok tt
      → MayRun m (text_if_truthy requested)
        × (needs_authority legacy m ≡ true
            → Spent now m args s (admit now legacy m args requested s).1)
  unfolding admit
  admit_sound now legacy m args requested s h =
      let allowed : enforce_run m (text_if_truthy requested) ≡ ok tt = ground arith in
      (
        enforce_run_sound m (text_if_truthy requested) allowed,
        λ needed. rw (allowed, needed) (consume_sound now m args s (rw (allowed, needed) at h)),
      )

  -- A call that reached the engine: the manifest of the id in the merged view, let through by the
  -- policy for the requested channel, its authority spent if one is needed, and the engine's
  -- answer handed on.
  pub record Ran (engine : Engine (CapabilityStore × World)) (now : ℕ) (legacy : Option String)
      (id : String) (args : Fields) (s : Service World) (out : Result Value × Service World)
      : Type 0 where
    pub requested : Value
    pub channel : requested_channel args ≡ ok requested
    pub manifest : Fields
    pub found : (get_capability id (text_if_truthy (get "version" args)) s.store).0 ≡ ok manifest
    pub may : MayRun manifest (text_if_truthy requested)
    pub spent : needs_authority legacy manifest ≡ true → Spent now manifest args s out.1
    pub answer : (out.0, (out.1.store, out.1.world)) ≡ engine.run manifest args (s.store, s.world)

  -- A call that raised before the engine was called.
  pub record Refused (s : Service World) (out : Result Value × Service World) : Type 0 where
    pub raised : is_ok out.0 ≡ false
    pub store : out.1.store ≡ s.store
    pub world : out.1.world ≡ s.world

  admitted :
      (engine : Engine (CapabilityStore × World)) (now : ℕ) (legacy : Option String) (id : String)
      (args m : Fields)
      → (requested : Value) (s : Service World) → requested_channel args ≡ ok requested
      → (get_capability id (text_if_truthy (get "version" args)) s.store).0 ≡ ok m
      → (r : Result (Unit {0})) (t : Service World) → admit now legacy m args requested s ≡ (r, t)
      → let out = (admit now legacy m args requested >> on_disk (engine.run m args)) s in
        Ran engine now legacy id args s out ⊎ Refused s out
  admitted engine now legacy id args m requested s channel found (err e) t h =
      let kept = admit-Kept now legacy m args requested s in
      inr (rw h (record { raised = refl; store = rw h at kept.store; world = rw h at kept.world }))
  admitted engine now legacy id args m requested s channel found (ok u) t h =
      let kept = admit-Kept now legacy m args requested s in
      let (may, spent) = admit_sound now legacy m args requested s (ap (λ x. x.0) h) in
      inl (
        rw h (record {
          requested = requested;
          channel = channel;
          manifest = m;
          found = found;
          may = may;
          spent = λ needed.
              let p = rw h at (spent needed) in
              record { authorized = p.authorized; fresh = p.fresh; seen = p.seen };
          answer =
              let same_world : t.world ≡ s.world = rw h at kept.world in
              let same_store : t.store ≡ s.store = rw h at kept.store in
              λ i. engine.run m args (same_store i, same_world i);
        }))

  -- Every run either reaches the engine under the conditions of `Ran`, or raises with the store
  -- and the world as they were.
  pub run_outcome :
      (engine : Engine (CapabilityStore × World)) (now : ℕ) (legacy : Option String) (id : String)
      (args : Fields)
      → (s : Service World)
      → let out = run engine now legacy id (obj args) s in
        Ran engine now legacy id args s out ⊎ Refused s out
  unfolding run_capability
  run_outcome engine now legacy id args s =
      let version = text_if_truthy (get "version" args) in
      let same = get_capability-same id version s.store in
      elim (Result-cases (requested_channel args)) [
        | inr (e, bad) ↦ inr (rw bad (record { raised = refl; store = refl; world = refl }))
        | inl (requested, channel) ↦ elim (Result-cases (get_capability id version s.store).0) [
          | inr (e, missing) ↦
              inr (rw (channel, missing) (record { raised = refl; store = same; world = refl }))
          | inl (m, found) ↦
              let both = admitted engine now legacy id args m requested s channel found _ _ refl in
              rw (channel, found, same) both
        ]
      ]
