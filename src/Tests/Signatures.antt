-- ===== src/Tests/Signatures.antt =====
-- The signatures of manifests and the adapter for MCP registries on concrete data.
use unison_capabilities.Base.{
  String, ◌<>◌, ◌≡◌, refl, false, none, some, [], ◌∷◌, ◌==◌, All, drop_text, eq_refl,
}
use unison_capabilities.Base.Dict
use unison_capabilities.Base.Dict.{Dict}
use unison_capabilities.Value.{
  decimal, Value, Fields, nil, cons, end, field, obj, arr, str, num, get, has, put, at_most, to_int,
}
use unison_capabilities.Error.{Result, ok, err, policy_error}
use unison_capabilities.Schema.{validate_manifest, sort_by_path}
use unison_capabilities.Policy.{CapabilityPolicy}
use unison_capabilities.Ecosystem.Signatures.{
  Ed25519, drop, unsigned, canonical_manifest, sign_manifest, verify_manifest_signature, at_least,
  require_compatibility,
}
use unison_capabilities.Ecosystem.Signed.{KeyPair, verify-sign_manifest}
use unison_capabilities.Discovery.{Candidate, candidate_of, listed, insert_by_score, sort_by_score}
use unison_capabilities.Discovery.Mcp.{
  server_of, mcp_manifest, mcp_list, mcp_servers, mcp_tools, mcp_tool,
}
use unison_capabilities.Discovery.Order.{IsRanked}
use unison_capabilities.Discovery.Untrusted.{IsOffered, mcp_list-IsOffered}
use unison_capabilities.Tests.Fixtures.{plain_python, lax_schema, first_letters}

-- A signature that shows its key, which is the private and the public one.
instance abbrev open_keys : Ed25519
open_keys = record {
  sign = λ key text. key <> ":" <> text;
  verify = λ key signature text. signature == (key <> ":" <> text);
  b64encode = λ s. s;
  b64decode = λ s. some s;
  dumps = λ m. elim (get "id" m) [ str s ↦ s | _ ↦ "" ];
}

open_pair : KeyPair "k1" "k1"
open_pair = record { accepted = λ text. eq_refl ("k1" <> ":" <> text); decoded = λ text. refl }

abbrev plain : Fields
plain = field "id" (str "demo.echo") (field "governance" (obj end) end)

abbrev signed_plain : Fields
signed_plain = field "id" (str "demo.echo") (
    field "governance"
      (obj (field "publisher" (str "acme") (field "signature" (str "ed25519:k1:demo.echo") end)))
      end)

abbrev publishers : Dict String
publishers = ("acme", "k1") ∷ []

signing : Unit {0}
unfolding sign_manifest verify_manifest_signature canonical_manifest unsigned drop put get has
    Dict.insert Dict.lookup Dict.erase drop_text
signing = tt

sign_manifest_test : sign_manifest plain "k1" "acme" ≡ ok signed_plain
unfolding signing
sign_manifest_test = refl

-- A signature by another key, and a publisher that is not trusted.
forged_test :
    verify_manifest_signature signed_plain (("acme", "k2") ∷ [])
    ≡ err (policy_error "capability signature verification failed")
unfolding signing
forged_test = refl

unknown_test :
    verify_manifest_signature signed_plain []
    ≡ err (policy_error "capability publisher or signature is not trusted")
unfolding signing
unknown_test = refl

verify-sign_manifest_example : verify_manifest_signature signed_plain publishers ≡ ok tt
unfolding signing
verify-sign_manifest_example =
    verify-sign_manifest plain signed_plain "k1" "k1" "acme" publishers open_pair refl refl

compatibility_test :
    require_compatibility
      (field "compatibility"
        (obj (
          field "min_host_api"
            (num (decimal false 2 0))
            (field "max_host_api" (num (decimal false 3 0)) end)))
        end)
      4
    ≡ err (policy_error "capability is incompatible with this host")
unfolding require_compatibility at_least get has Dict.lookup at_most to_int
compatibility_test = refl

-- A registry with one server, which has one tool and another without a name.
abbrev calc : Fields
calc = field "name" (str "calc") end

abbrev server : Fields
server =
    field "url" (str "https://mcp.example.com")
      (field "tools" (arr (cons (obj calc) (cons (obj end) nil))) end)

abbrev answer : String → Result Value
answer url = ok (arr (cons (obj server) nil))

abbrev offered : Candidate
offered =
    candidate_of "mcp" "calc" 16
      (mcp_manifest (server_of "https://registry.example.com" server) calc (str "calc")) none

abbrev careful : CapabilityPolicy
careful = record { trust_allow = "local" ∷ [] }

mcp_list-IsOffered_example : IsRanked (offered ∷ []) × All (IsOffered careful) (offered ∷ [])
unfolding mcp_list mcp_servers mcp_tools mcp_tool listed sort_by_score insert_by_score get
    validate_manifest sort_by_path Dict.lookup mcp_manifest candidate_of
mcp_list-IsOffered_example =
    mcp_list-IsOffered careful "mcp" "calc" answer "https://registry.example.com" (offered ∷ [])
      refl
