-- ===== src/Discovery/Untrusted.antt =====
-- What the adapter for MCP registries of src/discovery.py lists, and what the policy of
-- src/policy.py makes of it.
use unison_capabilities.Base.{
  String, ◌≡◌, refl, ap, ◌∙◌, inl, inr, false, none, List, [], ◌∷◌, All, member, Bool-cases,
}
use unison_capabilities.Base.Dict
use unison_capabilities.Value.{nil, Value, Fields, arr, str, get, Python, truthy, text_or_empty}
use unison_capabilities.Value.Compare.{iterate}
use unison_capabilities.Error.{Result, ok, value_or, bind-eq-ok}
use unison_capabilities.Schema.{Validator, IsValid, validate_manifest, validate_manifest_returns}
use unison_capabilities.Policy.{CapabilityPolicy, enforce_install}
use unison_capabilities.Policy.Install.{enforce_install_iff}
use unison_capabilities.Discovery.{
  Hashing, Candidate, score_lt, candidate_of, listed, insert_by_score, sort_by_score,
}
use unison_capabilities.Discovery.Mcp.{
  Server, server_of, as_server, or_value, servers_in, mcp_manifest, mcp_tool, mcp_tools,
  mcp_servers, mcp_list,
}
use unison_capabilities.Discovery.Order.{IsRanked, sort-IsRanked}

insert-Every :
    (P : Candidate → Type 0) (c : Candidate) (cs : List Candidate)
    → P c
    → All P cs
    → All P (insert_by_score c cs)
unfolding insert_by_score
insert-Every P c [] h k = (h, tt)
insert-Every P c (d ∷ ds) h (k, ks) = elim (Bool-cases (score_lt c.score d.score)) [
  | inl lower ↦ rw lower (k, insert-Every P c ds h ks)
  | inr placed ↦ rw placed (h, (k, ks))
]

-- Sorting keeps what holds of every candidate.
sort-Every : (P : Candidate → Type 0) (cs : List Candidate) → All P cs → All P (sort_by_score cs)
unfolding sort_by_score
sort-Every P [] h = tt
sort-Every P (c ∷ cs) (h, hs) = insert-Every P c (sort_by_score cs) h (sort-Every P cs hs)

module _ ⦃py : Python⦄ ⦃validator : Validator⦄ ⦃hash : Hashing⦄ where
  -- What an MCP registry may offer: valid manifests that a policy without `untrusted` refuses.
  pub record IsOffered (policy : CapabilityPolicy) (c : Candidate) : Type 0 where
    pub valid : IsValid c.manifest
    pub untrusted : get "trust_level" c.manifest ≡ str "untrusted"
    pub not_allowed :
        member "untrusted" policy.trust_allow ≡ false
        → ¬ (enforce_install policy c.manifest ≡ ok tt)

  trust_level_lem :
      (server : Server) (tool : Fields) (name : Value)
      → get "trust_level" (mcp_manifest server tool name) ≡ str "untrusted"
  unfolding mcp_manifest get Dict.lookup
  trust_level_lem server tool name = refl

  refused_lem :
      (policy : CapabilityPolicy) (m : Fields)
      → get "trust_level" m ≡ str "untrusted"
      → member "untrusted" policy.trust_allow ≡ false
      → ¬ (enforce_install policy m ≡ ok tt)
  refused_lem policy m trust outside h =
      let (allowed, _) = (enforce_install_iff policy m).0 h in
      let level = ap text_or_empty trust in cc (level, outside)

  module _ (policy : CapabilityPolicy) (name query : String) where
    tool-IsOffered :
        (server : Server) (tool : Fields) (later : Result (List Candidate)) (found : List Candidate)
        → ((cs : List Candidate) → later ≡ ok cs → All (IsOffered policy) cs)
        → mcp_tool name query server tool later ≡ ok found
        → All (IsOffered policy) found
    unfolding mcp_tool listed candidate_of
    tool-IsOffered server tool later found rest h = elim (Bool-cases (truthy (get "name" tool))) [
      | inl named ↦
          let m = mcp_manifest server tool (get "name" tool) in
          let (n, valid, h1) = bind-eq-ok (validate_manifest m) _ (rw named at h) in
          let (cs, got, h2) = bind-eq-ok later _ h1 in
          let trust = trust_level_lem server tool (get "name" tool) in
          let built : (candidate_of name query 16 m none ∷ cs) ≡ found =
            λ i. value_or found (h2 i) in
          rw (← built) (
            record {
              valid = valid ∙ ap ok (validate_manifest_returns m n valid);
              untrusted = trust;
              not_allowed = refused_lem policy m trust;
            },
            rest cs got,
          )
      | inr unnamed ↦ rest found (rw unnamed at h)
    ]

    tools-IsOffered :
        (server : Server) (vs : List Value) (later : Result (List Candidate))
        (found : List Candidate)
        → ((cs : List Candidate) → later ≡ ok cs → All (IsOffered policy) cs)
        → mcp_tools name query server vs later ≡ ok found
        → All (IsOffered policy) found
    unfolding mcp_tools
    tools-IsOffered server [] later found rest h = rest found h
    tools-IsOffered server (v ∷ vs) later found rest h =
        let (tool, _, h1) = bind-eq-ok (as_server v) _ h in
        tool-IsOffered server tool _ found (λ cs. tools-IsOffered server vs later cs rest) h1

    servers-IsOffered :
        (registry_url : String) (vs : List Value) (found : List Candidate)
        → mcp_servers name query registry_url vs ≡ ok found
        → All (IsOffered policy) found
    unfolding mcp_servers
    servers-IsOffered registry_url [] found h =
        let built : [] ≡ found = λ i. value_or found (h i) in rw (← built) tt
    servers-IsOffered registry_url (v ∷ vs) found h =
        let (server, _, h1) = bind-eq-ok (as_server v) _ h in
        let (tools, _, h2) = bind-eq-ok (iterate (or_value (get "tools" server) (arr nil))) _ h1 in
        tools-IsOffered (server_of registry_url server) tools _ found
          (servers-IsOffered registry_url vs) h2

    -- What an MCP registry offers is ranked by its score and all of it valid, and the installation
    -- of it is refused by every policy that does not list `untrusted`, whatever the registry answers.
    pub mcp_list-IsOffered :
        (send : String → Result Value) (registry_url : String) (found : List Candidate)
        → mcp_list name send registry_url query ≡ ok found
        → IsRanked found × All (IsOffered policy) found
    unfolding mcp_list
    mcp_list-IsOffered send registry_url found h =
        let (payload, _, h1) = bind-eq-ok (send registry_url) _ h in
        let (servers, _, h2) = bind-eq-ok (iterate (servers_in payload)) _ h1 in
        let (cs, got, h3) = bind-eq-ok (mcp_servers name query registry_url servers) _ h2 in
        let built : sort_by_score cs ≡ found = λ i. value_or found (h3 i) in
        rw (← built) (
          sort-IsRanked cs,
          sort-Every (IsOffered policy) cs (servers-IsOffered registry_url servers cs got),
        )
