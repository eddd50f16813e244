-- ===== src/Execution.antt =====
-- src/execution.py: how a capability is run. Processes, imported callables and HTTP requests are
-- parameters that act on a world of any type.
pub mod Requests
use unison_capabilities.Base.{
  ℕ, zero, suc, before_char, after_char, String, ◌<>◌, Bool, true, false, not, ◌&&◌, ◌||◌, Option,
  none, some, List, [], ◌∷◌, ◌++◌, ◌==◌, any, all, has_text, if◌then◌else◌,
}
use unison_capabilities.Value.{
  Number, decimal, Value, Fields, end, field, obj, arr, null, cons, str, num, items, Python, get,
  has, is_text, to_float, to_text, truthy, exceeds,
}
use unison_capabilities.Value.Compare.{iterate}
use unison_capabilities.Error
use unison_capabilities.Error.{Error, Result, ok, err, run_error, python_error, message}
use unison_capabilities.Exec.{Exec, pure, raise, lift, ◌>>=◌, ◌>>◌}
use unison_capabilities.Policy.{get_in}
use unison_capabilities.Egress.{Network, EgressConfig, check_url, enforce_manifest_network}
use unison_capabilities.Resolver.Run.{Engine}

-- What the engine calls: `subprocess.run` with a list of arguments and a timeout; the import of a
-- module with the look at one of its names, which gives how many parameters the callable there has,
-- if it is one; the callable of a module and a name with the dicts it is given; and an HTTP request
-- with the JSON of its response. A request with no body has `null`.
pub record Outside (World : Type 0) : Type 0 where
  pub spawn : List Value → Number → Exec World Value
  pub import_callable : (module_name fn_name : String) → Exec World (Option (Result ℕ))
  pub call : (module_name fn_name : String) → List Fields → Exec World Value
  pub send : (method url : String) → Value → Exec World Value

-- `v or w`
abbrev or_else : Value → Value → Value
or_else v w = if truthy v then v else w

abbrev pub failed : {A : Type 0} → String → Result A → Result A
failed text (ok a) = ok a
failed text (err e) = err (run_error (text <> message e))

module _ {World A : Type 0} where
  -- `except Exception as exc: raise CapabilityRunError(f"{text}{exc}")`
  abbrev pub wrapped : String → Exec World A → Exec World A
  wrapped text m s = let (r, s') = m s in (failed text r, s')

-- `min(timeout, 300.0)`
unfoldable pub cap_timeout : Number → Number
cap_timeout t = if exceeds t 300 then decimal false 300 0 else t

abbrev is_string : Value → Bool
is_string (str s) = true
is_string v = false

abbrev pub argv_of : Value → Result (List Value)
argv_of (arr (cons v vs)) = ok (v ∷ items vs)
argv_of v = err (run_error "command.argv required")

-- `args.argv_extra`, a list of strings if it is given
abbrev pub extra_of : Value → Result (List Value)
extra_of (arr vs) =
    if all is_string (items vs)
    then ok (items vs)
    else err (run_error "args.argv_extra must be a list of strings")
extra_of v = if truthy v then err (run_error "args.argv_extra must be a list of strings") else ok []

module _ ⦃py : Python⦄ where
  -- `(manifest.get("runtime") or {}).get("timeout_seconds") or 30`, capped
  unfoldable pub timeout_of : Fields → Result Number
  timeout_of manifest =
      Error.◌>>=◌ (get_in "timeout_seconds" (get "runtime" manifest))
        λ v. Error.◌>>=◌ (to_float (or_else v (num (decimal false 30 0)))) λ t. ok (cap_timeout t)

  -- `str(v) if v else None` of the server, and the tests of the loop over the servers
  abbrev pub server_id_of : Fields → Value
  server_id_of server = or_else (get "id" server) (or_else (get "name" server) (str "mcp"))

  abbrev pub names_tool : String → Value → Bool
  names_tool tool_name (obj t) = is_text tool_name (get "name" t)
  names_tool tool_name v = false

  -- `any(… for t in (server.get("tools") or []))`
  unfoldable pub has_tool : String → Value → Result Bool
  has_tool tool_name tools =
      if truthy tools
      then Error.◌>>=◌ (iterate tools) (λ ts. ok (any (names_tool tool_name) ts))
      else ok false

  abbrev pub wanted : Value → Fields → Bool
  wanted server_id server =
      not (truthy server_id) || to_text (server_id_of server) == to_text server_id

  abbrev pub base_of : Fields → Value
  base_of server = or_else (get "base_url" server) (get "url" server)

  -- the tests of the loop on one server
  abbrev pub offers : Value → String → Fields → Result Bool
  offers server_id tool_name server =
      if wanted server_id server && truthy (base_of server)
      then has_tool tool_name (get "tools" server)
      else ok false

  -- the base of the first server that the loop calls
  unfoldable pub find_base : Value → String → List Value → Result (Option String)
  find_base server_id tool_name [] = ok none
  find_base server_id tool_name (obj server ∷ rest) =
      let later = find_base server_id tool_name rest in
      Error.◌>>=◌ (offers server_id tool_name server)
        λ found. if found then ok (some (to_text (base_of server))) else later
  find_base server_id tool_name (v ∷ rest) = err (python_error "AttributeError")

-- `registry if isinstance(registry, list) else registry.get("servers", []) if … else []`
abbrev pub servers_of : Value → Result (List Value)
servers_of (arr vs) = ok (items vs)
servers_of (obj root) = if has "servers" root then iterate (get "servers" root) else ok []
servers_of v = ok []

module _ {World : Type 0} (out : Outside World) (egress : Option EgressConfig) where
  module _ ⦃py : Python⦄ ⦃net : Network⦄ where
    abbrev pub check_egress : String → Result (Unit {0})
    check_egress url = elim egress [ some cfg ↦ check_url cfg url | none ↦ ok tt ]

    -- through the egress controller, if there is one
    unfoldable pub send_checked : (method url : String) → Value → Exec World Value
    send_checked method url body = lift (check_egress url) >> out.send method url body

    -- a request that the permissions of the manifest let through
    unfoldable pub post : Fields → String → Value → Exec World Value
    post manifest url body =
        lift (enforce_manifest_network manifest url) >> send_checked "POST" url body

    unfoldable pub call_tool : Fields → Fields → String → Option String → Exec World Value
    call_tool manifest args tool_name none = raise (run_error ("mcp tool not found: " <> tool_name))
    call_tool manifest args tool_name (some base) =
        wrapped "mcp tool call failed: "
          (post manifest (base <> "/tools/" <> tool_name) (obj (field "arguments" (obj args) end)))

    unfoldable pub run_mcp_tool : Fields → Fields → String → String → Value → Exec World Value
    run_mcp_tool manifest args registry_url tool_name server_id = do
      lift (enforce_manifest_network manifest registry_url)
      registry ← wrapped "mcp discovery failed: " (send_checked "GET" registry_url null)
      servers ← lift (servers_of registry)
      base ← lift (find_base server_id tool_name servers)
      call_tool manifest args tool_name base

    abbrev pub envelope : Fields → Fields → Value
    envelope manifest args = obj (
        field "type" (str "a2a.request")
          (field "capability_id" (str (to_text (get "id" manifest))) (field "args" (obj args) end)))

    unfoldable pub run_a2a : Fields → Fields → String → Exec World Value
    run_a2a manifest args endpoint = do
      lift (enforce_manifest_network manifest endpoint)
      wrapped "a2a call failed: " (send_checked "POST" endpoint (envelope manifest args))

    unfoldable pub run_command : Fields → Fields → Fields → Exec World Value
    run_command manifest impl args = do
      v ← lift (get_in "argv" (get "command" impl))
      argv ← lift (argv_of v)
      extra ← lift (extra_of (get "argv_extra" args))
      timeout ← lift (timeout_of manifest)
      wrapped "command execution failed: " (out.spawn (argv ++ extra) timeout)

    abbrev pub callable_of : Value → Result String
    callable_of (str spec) =
        if has_text spec ":" then ok spec else err (run_error "python.callable required")
    callable_of v = err (run_error "python.callable required")

    abbrev pub is_callable : String → Option (Result ℕ) → Exec World (Result ℕ)
    is_callable spec none = raise (run_error ("python callable not found: " <> spec))
    is_callable spec (some parameters) = pure parameters

    -- `spec.split(":", 1)`
    abbrev pub module_of : String → String
    module_of spec = before_char 58 spec

    abbrev pub name_of : String → String
    name_of spec = after_char 58 spec

    -- what is known of the parameters of the callable
    unfoldable pub load_callable : String → Exec World (Result ℕ)
    load_callable spec = do
      found ← out.import_callable (module_of spec) (name_of spec)
      is_callable spec found

    abbrev pub call_with : String → Fields → Fields → ℕ → Exec World Value
    call_with spec manifest args (suc zero) = out.call (module_of spec) (name_of spec) (args ∷ [])
    call_with spec manifest args (suc (suc zero)) =
        out.call (module_of spec) (name_of spec) (manifest ∷ args ∷ [])
    call_with spec manifest args n =
        raise (run_error "python callable must accept (args) or (manifest, args)")

    unfoldable pub call_loaded : String → Fields → Fields → Result ℕ → Exec World Value
    call_loaded spec manifest args parameters = do
      n ← lift parameters
      call_with spec manifest args n

    unfoldable pub run_python : Fields → Fields → Fields → Exec World Value
    run_python manifest impl args = do
      v ← lift (get_in "callable" (get "python" impl))
      spec ← lift (callable_of v)
      parameters ← load_callable spec
      wrapped "python tool raised: " (call_loaded spec manifest args parameters)

    unfoldable pub run_mcp : Fields → Fields → Fields → Exec World Value
    run_mcp manifest impl args = do
      registry_url ← lift (get_in "registry_url" (get "mcp" impl))
      tool_name ← lift (get_in "tool_name" (get "mcp" impl))
      server_id ← lift (get_in "server_id" (get "mcp" impl))
      if not (truthy registry_url) || not (truthy tool_name)
          then raise (run_error "mcp.registry_url and mcp.tool_name required")
          else run_mcp_tool manifest args (to_text registry_url) (to_text tool_name) server_id

    unfoldable pub run_rpc : Fields → Fields → Fields → Exec World Value
    run_rpc manifest impl args = do
      endpoint ← lift (get_in "endpoint" (get "a2a" impl))
      if not (truthy endpoint)
          then raise (run_error "a2a.endpoint required")
          else run_a2a manifest args (to_text endpoint)

    -- the branches on `kind`, for an implementation that is an object
    unfoldable pub run_kind : Fields → Fields → Fields → Exec World Value
    run_kind manifest impl args =
        if is_text "command" (get "kind" impl)
        then run_command manifest impl args
        else if is_text "python" (get "kind" impl)
        then run_python manifest impl args
        else if is_text "mcp_tool" (get "kind" impl)
        then run_mcp manifest impl args
        else if is_text "a2a_rpc" (get "kind" impl)
        then run_rpc manifest impl args
        else raise (run_error ("unsupported implementation.kind: " <> to_text (get "kind" impl)))

    abbrev pub impl_of : Value → Result Fields
    impl_of (obj impl) = ok impl
    impl_of v = if truthy v then err (python_error "AttributeError") else ok end

    unfoldable pub execute : Fields → Fields → Exec World Value
    execute manifest args = do
      impl ← lift (impl_of (get "implementation" manifest))
      run_kind manifest impl args

    -- the engine that the resolver calls
    abbrev pub engine : Engine World
    engine = record { run = execute }
