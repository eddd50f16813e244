-- ===== src/Discovery/Mcp.antt =====
-- src/discovery.py: the adapter for the tools of an MCP registry, and the `fetch` of the adapters.
use unison_capabilities.Base.{
  String, ◌<>◌, true, false, Option, none, some, List, [], ◌∷◌, ◌==◌, if◌then◌else◌,
}
use unison_capabilities.Value.{
  decimal, Value, Fields, end, field, obj, arr, nil, str, num, bool, of_list, get, get_default,
  Python, to_text, truthy,
}
use unison_capabilities.Value.Compare.{iterate}
use unison_capabilities.Error.{Result, ok, err, python_error, ◌>>=◌}
use unison_capabilities.Schema.{Validator}
use unison_capabilities.Egress.{Network}
use unison_capabilities.Discovery.{
  Hashing, Candidate, candidate_of, listed, sort_by_score, find_candidate, static_get, http_get,
}

-- `v or w`
abbrev pub or_value : Value → Value → Value
or_value v w = if truthy v then v else w

-- `v.get(…)`: only a dict has it
abbrev pub as_server : Value → Result Fields
as_server (obj fs) = ok fs
as_server v = err (python_error "AttributeError")

abbrev keep_true : List Value → List Value
keep_true [] = []
keep_true (v ∷ vs) = let rest = keep_true vs in if truthy v then v ∷ rest else rest

-- What a manifest takes from its server: the registry's URL, the base URL and the id.
pub record Server : Type 0 where
  pub registry_url : String
  pub base : Value
  pub server_id : Value

abbrev empty_schema : Value
empty_schema = obj (field "type" (str "object") (field "properties" (obj end) end))

module _ ⦃py : Python⦄ ⦃hash : Hashing⦄ where
  unfoldable pub server_of : String → Fields → Server
  server_of registry_url server = record {
    registry_url = registry_url;
    base = or_value (get "base_url" server) (get "url" server);
    server_id = or_value (or_value (get "id" server) (get "name" server)) (str "mcp");
  }

  abbrev origin : Server → Value → Value
  origin server name = obj (
      field "source" (str "url") (
        field "digest"
          (str (
            hash.sha256_text
              (server.registry_url <> ":" <> to_text server.server_id <> ":" <> to_text name)))
          end))

  abbrev permissions : Server → Value
  permissions server = obj (
      field "network" (str "allowlist") (
        field "network_allowlist"
          (arr (of_list (keep_true (server.base ∷ str server.registry_url ∷ []))))
          (field "filesystem" (str "none") (field "devices" (arr nil) end))))

  abbrev runtime : Value
  runtime = obj (
      field "sandbox" (str "process") (
        field "resources" (obj (field "cpu" (str "default") (field "memory" (str "default") end)))
          (field "timeout_seconds" (num (decimal false 30 0)) end)))

  abbrev implementation : Server → Value → Value
  implementation server name = obj (
      field "kind" (str "mcp_tool") (
        field "mcp"
          (obj (
            field "registry_url" (str server.registry_url) (
              field "server_id" (str (to_text server.server_id))
                (field "tool_name" (str (to_text name)) end))))
          end))

  unfoldable pub mcp_manifest : Server → Fields → Value → Fields
  mcp_manifest server tool name = field "id" (str ("mcp.tool:" <> to_text name)) (
      field "type" (str "tool") (
        field "version" (str "0.0.0") (
          field "description"
            (or_value (get "description" tool) (str ("MCP tool " <> to_text name)))
            (field "origin" (origin server name) (
              field "interfaces"
                (obj (
                  field "inputs" (or_value (get "parameters" tool) empty_schema)
                    (field "outputs" (obj (field "type" (str "object") end)) end)))
                (field "permissions" (permissions server) (
                  field "runtime" runtime (
                    field "trust_level" (str "untrusted") (
                      field "enabled" (bool true) (
                        field "execution" (obj (field "channel" (str "programmatic") end))
                          (field "implementation" (implementation server name) end)))))))))))

module _ ⦃py : Python⦄ ⦃validator : Validator⦄ ⦃hash : Hashing⦄ where
  -- a tool of a server in front of what the rest gives, unless it has no name
  unfoldable pub mcp_tool :
      String → String → Server → Fields → Result (List Candidate) → Result (List Candidate)
  mcp_tool name query server tool later =
      if truthy (get "name" tool)
      then listed (candidate_of name query 16 (mcp_manifest server tool (get "name" tool)) none)
          later
      else later

  unfoldable pub mcp_tools :
      String → String → Server → List Value → Result (List Candidate) → Result (List Candidate)
  mcp_tools name query server [] later = later
  mcp_tools name query server (v ∷ vs) later =
      let rest = mcp_tools name query server vs later in
      as_server v >>= λ tool. mcp_tool name query server tool rest

  unfoldable pub mcp_servers : String → String → String → List Value → Result (List Candidate)
  mcp_servers name query registry_url [] = ok []
  mcp_servers name query registry_url (v ∷ vs) =
      let rest = mcp_servers name query registry_url vs in
      as_server v >>= λ server. iterate (or_value (get "tools" server) (arr nil)) >>= λ tools.
      mcp_tools name query (server_of registry_url server) tools rest

  -- the servers of the payload
  abbrev pub servers_in : Value → Value
  servers_in (arr vs) = arr vs
  servers_in (obj payload) = get_default "servers" (arr nil) payload
  servers_in v = arr nil

  -- `send` is the request through the egress controller, with the JSON of its response.
  unfoldable pub mcp_list :
      String → (String → Result Value) → String → String → Result (List Candidate)
  mcp_list name send registry_url query = do
    payload ← send registry_url
    servers ← iterate (servers_in payload)
    found ← mcp_servers name query registry_url servers
    ok (sort_by_score found)

  unfoldable pub mcp_get : String → (String → Result Value) → String → String → Result Candidate
  mcp_get name send registry_url candidate_id =
      mcp_list name send registry_url "" >>= find_candidate candidate_id

  abbrev only_manifest : Candidate → Value
  only_manifest c = obj (field "manifest" (obj c.manifest) end)

  abbrev with_url : Candidate → Value
  with_url c = elim c.manifest_url [
    | none ↦ only_manifest c
    | some url ↦
        if url == ""
        then only_manifest c
        else obj (field "manifest_url" (str url) (field "manifest" (obj c.manifest) end))
  ]

  unfoldable pub mcp_fetch : String → (String → Result Value) → String → String → Result Value
  mcp_fetch name send registry_url candidate_id =
      mcp_get name send registry_url candidate_id >>= λ c. ok (only_manifest c)

  unfoldable pub static_fetch : String → Result Value → String → Result Value
  static_fetch name raw candidate_id =
      static_get name raw candidate_id >>= λ c. ok (only_manifest c)

  unfoldable pub http_fetch :
      ⦃net : Network⦄ → String → (String → Result Value) → List String → String → Result Value
  http_fetch name send urls candidate_id =
      http_get name send urls candidate_id >>= λ c. ok (with_url c)

-- `McpRegistryAdapter.from_env`: the registry's URL, if there is one
unfoldable pub mcp_url : Option String → Option String
mcp_url none = none
mcp_url (some url) = if url == "" then none else some url
