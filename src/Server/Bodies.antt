-- ===== src/Server/Bodies.antt =====
-- What the routes of src/server.py that are not for admins do to the store: all leave it as it is but
-- the one that runs a capability, which leaves it as the engine does.
use unison_capabilities.Base.{ℕ, String, ◌≡◌, refl, ap, not, ◌∙◌, ◌⊎◌, inl, inr, Option, arith}
use unison_capabilities.Value.{
  Fields, obj, Python, get, dict_or_empty, truthy, to_text, text_if_truthy,
}
use unison_capabilities.Error.{Result, ok, err, Result-cases, raise_if, manifest_error}
use unison_capabilities.Exec.{Exec, pure, continue}
use unison_capabilities.Exec.Within.{Preorder, Within, within_rules}
use unison_capabilities.Schema.{Validator}
use unison_capabilities.Discovery.{Hashing}
use unison_capabilities.Audit.{AuditEvent}
use unison_capabilities.Store.{CapabilityStore, merged_catalog}
use unison_capabilities.Resolver.{
  Setup, list, get_capability, search as catalog_search, resolve, resolve_step,
}
use unison_capabilities.Resolver.Run.{Engine, Service}
use unison_capabilities.Policy.Run.{MayRun}
use unison_capabilities.Resolver.Run.Sound.{run_outcome}
use unison_capabilities.Resolver.Run
use unison_capabilities.Server.{App, Api, Call, on_store, audited, log_line}
use unison_capabilities.Server.Handlers.{
  search_body, resolve_body, list_body, get_body, run_body, one_field, bound_args,
}

module _ {World : Type 0} where
  abbrev pub SameStore : App World → App World → Type 0
  SameStore s t = t.service.store ≡ s.service.store

  SameStore-preorder : Preorder SameStore
  SameStore-preorder = record { reflexive = λ s. refl; transitive = λ s t u p q. q ∙ p }

  audited-Within :
      ⦃hash : Hashing⦄
      → (api : Api World) (event : AuditEvent) → Within SameStore (audited api event)
  unfolding log_line
  audited-Within api event = record { at = λ s. refl }

  on_store-Within :
      {A : Type 0} (m : Exec CapabilityStore A)
      → ((s : CapabilityStore) → (m s).1 ≡ s)
      → Within SameStore (on_store m)
  on_store-Within m same = record { at = λ s. same s.service.store }

module _ ⦃py : Python⦄ ⦃validator : Validator⦄ where
  list_same : (s : CapabilityStore) → (list s).1 ≡ s
  unfolding list merged_catalog
  list_same s = ground arith

  get_same : (id : String) (v : Option String) (s : CapabilityStore) → (get_capability id v s).1 ≡ s
  unfolding get_capability merged_catalog
  get_same id v s = ground arith

module _ ⦃py : Python⦄ ⦃validator : Validator⦄ ⦃hash : Hashing⦄ where
  search_same :
      (setup : Setup) (intent : String) (c : Fields) (s : CapabilityStore)
      → (catalog_search setup intent c s).1 ≡ s
  unfolding catalog_search merged_catalog
  search_same setup intent c s = ground arith

  resolve_same :
      (setup : Setup) (step : Fields) (s : CapabilityStore) → (resolve setup (obj step) s).1 ≡ s
  unfolding resolve_step
  resolve_same setup step s = grind (arith, search_same)

module _ {World : Type 0} ⦃py : Python⦄ ⦃validator : Validator⦄ ⦃hash : Hashing⦄ (api : Api World)
    (call : Call) (user : Fields) where
  found_candidates :
      (intent : String) (c : Fields)
      → Within (SameStore {World = World}) (on_store (catalog_search api.setup intent c))
  found_candidates intent c = on_store-Within _ (search_same api.setup intent c)

  resolved :
      (step : Fields) → Within (SameStore {World = World}) (on_store (resolve api.setup (obj step)))
  resolved step = on_store-Within _ (resolve_same api.setup step)

  pub search-Within : (payload : Fields) → Within SameStore (search_body api call user payload)
  unfolding search_body
  search-Within payload =
      search (within_rules, SameStore-preorder, audited-Within, found_candidates) depth 16

  pub resolve-Within : (payload : Fields) → Within SameStore (resolve_body api call user payload)
  unfolding resolve_body
  resolve-Within payload =
      search (within_rules, SameStore-preorder, audited-Within, resolved) depth 16

  pub list-Within : Within SameStore (list_body api call user)
  unfolding list_body
  list-Within =
      search (within_rules, SameStore-preorder, audited-Within, on_store-Within, list_same) depth 16

  pub get-Within :
      (id : String) (v : Option String) → Within SameStore (get_body api call user id v)
  unfolding get_body
  get-Within id v =
      search (within_rules, SameStore-preorder, audited-Within, on_store-Within, get_same) depth 16

module _ {World : Type 0} ⦃py : Python⦄ ⦃validator : Validator⦄ where
  -- The store that the engine left: of a run of a manifest of the merged view that the policy let
  -- through, started in the store `before`.
  pub record LeftByEngine (api : Api World) (before later : CapabilityStore) : Type 0 where
    pub id : String
    pub version : Option String
    pub manifest : Fields
    pub args : Fields
    pub channel : Option String
    pub world : World
    pub found : (get_capability id version before).0 ≡ ok manifest
    pub may : MayRun manifest channel
    pub left : later ≡ (api.engine.run manifest args (before, world)).1.0

  abbrev pub RunOrSame : Api World → CapabilityStore → CapabilityStore → Type 0
  RunOrSame api before later = (later ≡ before) ⊎ LeftByEngine api before later

  ran_store :
      (api : Api World) (now : ℕ) (id : String) (args : Fields) (s : Service World)
      → RunOrSame api s.store (Run.run api.engine now api.allow_legacy id (obj args) s).1.store
  ran_store api now id args s = elim (run_outcome api.engine now api.allow_legacy id args s) [
    | inr refused ↦ inl refused.store
    | inl ran ↦ inr (record {
      id = id;
      version = text_if_truthy (get "version" args);
      manifest = ran.manifest;
      args = args;
      channel = text_if_truthy ran.requested;
      world = s.world;
      found = ran.found;
      may = ran.may;
      left = ap (λ r. r.1.0) ran.answer;
    })
  ]

  pure_store :
      {A B : Type 0} (r : Result A) (t : App World) (f : A → B)
      → (continue r t (λ a. pure (f a))).1.service.store ≡ t.service.store
  pure_store (ok a) t f = refl
  pure_store (err e) t f = refl

module _ {World : Type 0} ⦃py : Python⦄ ⦃validator : Validator⦄ ⦃hash : Hashing⦄ (api : Api World)
    (call : Call) (user : Fields) where
  pub run_body_store :
      (payload : Fields) (s : App World)
      → RunOrSame api s.service.store (run_body api call user payload s).1.service.store
  unfolding run_body log_line
  run_body_store payload s =
      let capability_id = get "capability_id" payload in
      let checked =
        raise_if (not (truthy capability_id)) (manifest_error "capability_id required") in
      elim (Result-cases (bound_args api (dict_or_empty (get "args" payload)))) [
        | inr (e, unbound) ↦ rw unbound (inl refl)
        | inl (args, bound) ↦ elim (Result-cases checked) [
          | inr (e, missing) ↦ rw (bound, missing) (inl refl)
          | inl (_, there) ↦
              let out =
                Run.run api.engine call.now api.allow_legacy (to_text capability_id) (obj args)
                  s.service in
              rw (bound, there, pure_store out.0 _ (one_field "result"))
                (ran_store api call.now (to_text capability_id) args s.service)
        ]
      ]
