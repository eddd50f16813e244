-- ===== src/Tests/Runs.antt =====
-- The execution engine on a concrete world.
use unison_capabilities.Base.{
  String, ◌≡◌, refl, true, false, none, some, List, [], ◌∷◌, All, member, strip, lower, ends_with,
  has_text, tail_text,
}
use unison_capabilities.Base.Dict
use unison_capabilities.Value.{
  text_if_truthy, Fields, null, str, arr, nil, cons, obj, field, end, get, has, at_most, exceeds,
  to_float,
}
use unison_capabilities.Value.Compare.{in_set, intersects, contained, value_eq}
use unison_capabilities.Error.{run_error, err, ok, is_ok}
use unison_capabilities.Exec.Within.{Preorder, Within}
use unison_capabilities.Egress.{
  enforce_manifest_network, check_mode, rule_matches, host_matches, url_prefix_matches,
}
use unison_capabilities.Execution.{
  engine, Outside, execute, run_kind, run_rpc, run_a2a, send_checked,
}
use unison_capabilities.Execution.Requests.{Allows, execute-Within}
use unison_capabilities.Governance.{
  fresh_guard, consume, validate_governance_manifest, authorize_execution, governance_of,
  require_all, check_bounds, check_authority, from_isoformat, is_revoked,
}
use unison_capabilities.Policy.{enforce_run, is_oauth_secret}
use unison_capabilities.Store.{CapabilityStore, merged_catalog}
use unison_capabilities.Resolver.{get_capability, is_version}
use unison_capabilities.Resolver.Run.{
  Service, run, run_capability, requested_channel, fallback_channel, admit, take_authority,
  needs_authority,
}
use unison_capabilities.Tests.Fixtures.{
  plain_python, lax_schema, two_urls, base_only, governed, authority, reading,
}

-- The world is the list of the URLs that were requested.
abbrev logging : Outside (List String)
logging = record {
  spawn = λ argv t log. (ok null, log);
  import_callable = λ module_name fn_name log. (ok (some (ok 1)), log);
  call = λ module_name fn_name given log. (ok null, log);
  send = λ method url body log. (ok (str "sent"), url ∷ log);
}

abbrev remote : String → Fields
remote rule =
    field "implementation"
      (obj (
        field "kind" (str "a2a_rpc")
          (field "a2a" (obj (field "endpoint" (str "https://api.example.com/v1") end)) end)))
      (field "permissions"
        (obj (
          field "network" (str "allowlist")
            (field "network_allowlist" (arr (cons (str rule) nil)) end)))
        end)

-- what a run through a remote procedure runs through
running : Unit {0}
unfolding execute run_kind run_rpc run_a2a send_checked enforce_manifest_network check_mode
    rule_matches host_matches url_prefix_matches member strip lower ends_with has_text tail_text get
    Dict.lookup
running = tt

execute_tests :
    (execute logging none (remote "example.com") end []
      ≡ (ok (str "sent"), "https://api.example.com/v1" ∷ []))
    × (is_ok (execute logging none (remote "example.org") end []).0 ≡ true → ⊥)
    × ((execute logging none (remote "example.org") end []).1 ≡ [])
unfolding running
execute_tests = (refl, (λ e. cc), refl)

abbrev AllPermitted : List String → Type 0
AllPermitted log = All (λ url. enforce_manifest_network (remote "example.com") url ≡ ok tt) log

abbrev StaysPermitted : List String → List String → Type 0
StaysPermitted log later = AllPermitted log → AllPermitted later

StaysPermitted-preorder : Preorder StaysPermitted
StaysPermitted-preorder = record { reflexive = λ s h. h; transitive = λ s t u p q h. q (p h) }

logging-Allows : Allows StaysPermitted StaysPermitted-preorder logging none (remote "example.com")
logging-Allows = record {
  sends = λ method url body h p. record { at = λ log fine. (h, fine) };
  spawns = λ argv t h. record { at = λ log fine. fine };
  imports = λ module_name fn_name. record { at = λ log fine. fine };
  calls = λ module_name fn_name args.
      (record { at = λ log fine. fine }, record { at = λ log fine. fine });
}

execute-Within_example : Within StaysPermitted (execute logging none (remote "example.com") end)
execute-Within_example =
    execute-Within StaysPermitted StaysPermitted-preorder logging none (remote "example.com")
      logging-Allows end

-- the resolver's run

abbrev idle : Service (List String)
idle = record { store = base_only; guard = fresh_guard; world = [] }

abbrev with_authority : Fields
with_authority = field "authority" (obj authority) end

admitting : Unit {0}
unfolding reading run_capability requested_channel fallback_channel get_capability is_version
    text_if_truthy merged_catalog Dict.update admit take_authority needs_authority enforce_run
    is_oauth_secret lower member in_set has validate_governance_manifest authorize_execution
    governance_of require_all check_bounds check_authority from_isoformat is_revoked intersects
    contained value_eq at_most exceeds to_float consume
admitting = tt

-- An authority is good for one run.
admit_tests :
    let first = admit 5 none governed with_authority null idle in
    (first.0 ≡ ok tt)
    × (first.1.guard.seen ≡ "n-1" ∷ [])
    × (is_ok (admit 5 none governed with_authority null first.1).0 ≡ false)
unfolding admitting
admit_tests = (refl, refl, refl)

-- the same outside, for the engine of the service
abbrev beside_store : Outside (CapabilityStore × List String)
beside_store = record {
  spawn = λ argv t s. (ok null, s);
  import_callable = λ module_name fn_name s. (ok none, s);
  call = λ module_name fn_name given s. (ok null, s);
  send = λ method url body s. (ok (str "sent"), s);
}

-- A capability that is not governed runs with the flag alone.
run_tests :
    ((run (engine beside_store none) 5 (some "True") "demo.echo" (obj end) idle).0
      ≡ err (run_error "unsupported implementation.kind: None"))
    × (is_ok (run (engine beside_store none) 5 none "demo.echo" (obj end) idle).0 ≡ false)
    × (is_ok (run (engine beside_store none) 5 (some "True") "demo.none" (obj end) idle).0 ≡ false)
unfolding admitting execute run_kind
run_tests = (refl, refl, refl)
