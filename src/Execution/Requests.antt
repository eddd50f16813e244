-- ===== src/Execution/Requests.antt =====
-- Which requests and processes src/execution.py can start.
use unison_capabilities.Base.{
  ℕ, zero, suc, [], ◌∷◌, String, ◌≡◌, refl, inl, inr, false, Option, none, some, List, arith,
  Bool-cases,
}
use unison_capabilities.Value.{Number, Value, Fields, Python, null, get, to_float, exceeds}
use unison_capabilities.Error.{Result, ok, bind-eq-ok}
use unison_capabilities.Exec.{Exec}
use unison_capabilities.Exec.Within.{
  Within-pure, Within-lift, Preorder, Within, Within-raise, Within-bind, within_rules,
  Within-checked, Within-given,
}
use unison_capabilities.Policy.{get_in}
use unison_capabilities.Egress.{Network, EgressConfig, check_url, enforce_manifest_network}
use unison_capabilities.Execution.{
  Outside, check_egress, wrapped, cap_timeout, timeout_of, send_checked, post, call_tool,
  is_callable, load_callable, call_with, call_loaded, module_of, name_of, run_mcp_tool, run_a2a,
  run_command, run_python, run_mcp, run_rpc, run_kind, execute,
}

abbrev pub IsPermitted : ⦃net : Network⦄ → Option EgressConfig → String → Type 0
IsPermitted none url = Unit
IsPermitted (some cfg) url = check_url cfg url ≡ ok tt

capped : (t : Number) → exceeds (cap_timeout t) 300 ≡ false
unfolding cap_timeout exceeds
capped t = elim (Bool-cases (exceeds t 300)) [
  | inl over ↦ rw over refl
  | inr within ↦ rw within within
]

timeout_lem :
    ⦃py : Python⦄ → (m : Fields) (t : Number) → timeout_of m ≡ ok t → exceeds t 300 ≡ false
unfolding timeout_of
timeout_lem m t h =
    let (v, read, on) = bind-eq-ok (get_in "timeout_seconds" (get "runtime" m)) _ h in
    let (u, number, last) = bind-eq-ok (to_float _) _ on in
    let same : cap_timeout u ≡ t = ground (arith, last) in rw same at (capped u)

module _ {World : Type 0} (R : World → World → Type 0) (order : Preorder R) where
  Within-wrapped :
      {A : Type 0} (text : String) (m : Exec World A) → Within R m → Within R (wrapped text m)
  Within-wrapped text m km = record { at = km.at }

  module _ (out : Outside World) (egress : Option EgressConfig) ⦃py : Python⦄ ⦃net : Network⦄
      (m : Fields) where
    -- The relation holds across every request that the manifest's permissions and the egress
    -- control let through, every process with a timeout of at most 300 seconds (or `nan`), and
    -- every import of a callable and every call of one with the arguments, after this manifest or
    -- alone.
    pub record Allows : Type 0 where
      pub sends :
          (method url : String) (body : Value)
          → enforce_manifest_network m url ≡ ok tt
          → IsPermitted egress url
          → Within R (out.send method url body)
      pub spawns :
          (argv : List Value) (t : Number) → exceeds t 300 ≡ false → Within R (out.spawn argv t)
      pub imports :
          (module_name fn_name : String) → Within R (out.import_callable module_name fn_name)
      pub calls :
          (module_name fn_name : String) (args : Fields)
          → Within R (out.call module_name fn_name (args ∷ []))
            × Within R (out.call module_name fn_name (m ∷ args ∷ []))

    permitted_lem :
        (cfg : Option EgressConfig) (url : String)
        → check_egress out cfg url ≡ ok tt
        → IsPermitted cfg url
    permitted_lem none url h = tt
    permitted_lem (some c) url h = h

    module _ (allows : Allows) where
      send_checked-Within :
          (method url : String) (body : Value)
          → enforce_manifest_network m url ≡ ok tt
          → Within R (send_checked out egress method url body)
      unfolding send_checked
      send_checked-Within method url body h =
          Within-checked order (check_egress out egress url) (out.send method url body)
            (λ permitted. allows.sends method url body h (permitted_lem egress url permitted))

      post-Within : (url : String) (body : Value) → Within R (post out egress m url body)
      unfolding post
      post-Within url body =
          Within-checked order (enforce_manifest_network m url)
            (send_checked out egress "POST" url body) (λ h. send_checked-Within "POST" url body h)

      call_tool-Within :
          (args : Fields) (tool : String) (base : Option String)
          → Within R (call_tool out egress m args tool base)
      unfolding call_tool
      call_tool-Within args tool none = Within-raise order _
      call_tool-Within args tool (some base) = Within-wrapped _ _ (post-Within _ _)

      run_mcp_tool-Within :
          (args : Fields) (url tool : String) (server : Value)
          → Within R (run_mcp_tool out egress m args url tool server)
      unfolding run_mcp_tool
      run_mcp_tool-Within args url tool server =
          Within-checked order (enforce_manifest_network m url) _ (λ h.
            Within-bind order _ _ (Within-wrapped _ _ (send_checked-Within "GET" url null h))
              (search (within_rules, order, call_tool-Within) depth 8))

      run_a2a-Within : (args : Fields) (url : String) → Within R (run_a2a out egress m args url)
      unfolding run_a2a
      run_a2a-Within args url =
          Within-checked order (enforce_manifest_network m url) _
            (λ h. Within-wrapped _ _ (send_checked-Within "POST" url _ h))

      spawned : (argv : List Value) (t : Number) → timeout_of m ≡ ok t → Within R (out.spawn argv t)
      spawned argv t h = allows.spawns argv t (timeout_lem m t h)

      is_callable-Within :
          (spec : String) (found : Option (Result ℕ)) → Within R (is_callable out egress spec found)
      is_callable-Within spec none = Within-raise order _
      is_callable-Within spec (some parameters) = Within-pure order parameters

      load_callable-Within : (spec : String) → Within R (load_callable out egress spec)
      unfolding load_callable
      load_callable-Within spec =
          Within-bind order _ _
            (allows.imports (module_of out egress spec) (name_of out egress spec))
            (is_callable-Within spec)

      call_with-Within :
          (spec : String) (args : Fields) (n : ℕ) → Within R (call_with out egress spec m args n)
      call_with-Within spec args zero = Within-raise order _
      call_with-Within spec args (suc zero) = (allows.calls _ _ args).0
      call_with-Within spec args (suc (suc zero)) = (allows.calls _ _ args).1
      call_with-Within spec args (suc (suc (suc n))) = Within-raise order _

      call_loaded-Within :
          (spec : String) (args : Fields) (parameters : Result ℕ)
          → Within R (call_loaded out egress spec m args parameters)
      unfolding call_loaded
      call_loaded-Within spec args parameters =
          Within-bind order _ _ (Within-lift order parameters) (call_with-Within spec args)

      run_command-Within : (impl args : Fields) → Within R (run_command out egress m impl args)
      unfolding run_command
      run_command-Within impl args = search (Within-given, order, Within-wrapped, spawned) depth 12

      run_python-Within : (impl args : Fields) → Within R (run_python out egress m impl args)
      unfolding run_python
      run_python-Within impl args =
          search (within_rules, order, Within-wrapped, load_callable-Within, call_loaded-Within)
            depth 14

      run_mcp-Within : (impl args : Fields) → Within R (run_mcp out egress m impl args)
      unfolding run_mcp
      run_mcp-Within impl args = search (within_rules, order, run_mcp_tool-Within) depth 12

      run_rpc-Within : (impl args : Fields) → Within R (run_rpc out egress m impl args)
      unfolding run_rpc
      run_rpc-Within impl args = search (within_rules, order, run_a2a-Within) depth 12

      run_kind-Within : (impl args : Fields) → Within R (run_kind out egress m impl args)
      unfolding run_kind
      run_kind-Within impl args =
          search
            (
              within_rules, order, run_command-Within, run_python-Within, run_mcp-Within,
              run_rpc-Within,
            )
            depth 12

      -- Whatever the manifest and the arguments are, and whatever the world answers: a run keeps
      -- every such relation, so it sends, starts and calls nothing else.
      pub execute-Within : (args : Fields) → Within R (execute out egress m args)
      unfolding execute
      execute-Within args = search (within_rules, order, run_kind-Within) depth 8
