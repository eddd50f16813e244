-- ===== src/Tests/Resolutions.antt =====
-- The resolver on concrete inputs.
use unison_capabilities.Base.{
  ℕ, ◌+◌, String, ◌≡◌, ◌≢◌, refl, ◌⊎◌, Bool, true, false, ◌&&◌, Option, none, some, List, [], ◌∷◌,
  any, lower, strip, has_text, member,
}
use unison_capabilities.Base.Dict
use unison_capabilities.Base.Dict.{Dict}
use unison_capabilities.Value.{
  Value, Fields, null, obj, str, bool, end, field, get, has, put, text_or_empty, dict_or_empty,
}
use unison_capabilities.Error.{ok, is_ok}
use unison_capabilities.Schema.{IsValid}
use unison_capabilities.Policy.{enforce_install}
use unison_capabilities.Governance.{fresh_guard}
use unison_capabilities.Discovery.{Candidate}
use unison_capabilities.Discovery.Order.{IsRanked}
use unison_capabilities.Store.{CapabilityStore, safe_dirname, id_of, merged_catalog, upsert_local}
use unison_capabilities.Store.Effects.{Holds}
use unison_capabilities.Store.Artifacts.{safe_ref, dir_at}
use unison_capabilities.Installer.{
  install_ref, stage_name, install_manifest_atomic, install_at, stage_and_promote, stage_files,
  promote_stage,
}
use unison_capabilities.Resolver.{Setup, search, is_eligible, resolve, remove, normalize_digest}
use unison_capabilities.Resolver.Search.{
  all_candidates, allowed_by, IsFirst, search_lem, resolve_lem,
}
use unison_capabilities.Resolver.Accept.{
  accept, candidate_manifest, choose_manifest, fetch_remote, check_remote, send, expected_digest,
  digest_of,
}
use unison_capabilities.Resolver.Install.{
  install, install_candidate, install_accepted, copy_origin, origin_of, installed_reply,
}
use unison_capabilities.Resolver.Installed.{IsAccepted, accept_sound}
use unison_capabilities.Resolver.Installed.Effect.{IsFresh, install_effect}
use unison_capabilities.Resolver.Remove.{remove_twice}
use unison_capabilities.Resolver.Run.{Engine, Service, run}
use unison_capabilities.Resolver.Run.Sound.{Ran, Refused, run_outcome}
use unison_capabilities.Resolver.Run.Blocked.{RejectsGovernance, run_blocked}
use unison_capabilities.Tests.Fixtures.{
  plain_python, lax_schema, errors_of, first_letters, two_urls, echo, base_only, with_mail,
  echo_entry, mail_entry, base_only-Holds, with_mail-Holds, reading,
}

abbrev stranger : Fields
stranger =
    field "id" (str "far.tool")
      (field "version" (str "1") (field "trust_level" (str "untrusted") end))

-- One trusted level, no registry, and one manifest on the web.
abbrev setup : Setup
setup = record {
  policy = record { trust_allow = "local" ∷ [] };
  registries = [];
  egress = none;
  http_client = λ url. ok (obj stranger);
  disk = record { fault = λ step. none; residue = λ dir. none };
  sources = λ path. none;
}

abbrev once : Fields
once = field "manifest" (obj echo) end

-- a shell that is trusted, with the URL of a manifest that is not
abbrev shell : Fields
shell =
    field "manifest"
      (obj (
        field "trust_level" (str "local")
          (field "origin" (obj (field "source" (str "url") end)) end)))
      (field "manifest_url" (str "https://api.example.com/v1") end)

-- what an installation runs through
installing : Unit {0}
unfolding reading accept candidate_manifest choose_manifest fetch_remote check_remote send
    expected_digest digest_of normalize_digest enforce_install has member strip lower
installing = tt

-- The policy is asked about the shell alone: what is installed need not be allowed.
accept_tests :
    (accept setup once ≡ ok echo)
    × (accept setup shell ≡ ok stranger)
    × (is_ok (enforce_install setup.policy stranger) ≡ false)
unfolding installing
accept_tests = (refl, refl, refl)

accept_sound_example : IsAccepted setup shell stranger
unfolding installing
accept_sound_example = accept_sound setup shell stranger refl

abbrev new_token : IsFresh "token" base_only
unfolding Dict.lookup
new_token = λ m. refl

install_effect_example :
    (m : Fields) × IsAccepted setup once m
    × Holds (install setup "token" (obj once) base_only).1 echo_entry (Dict.insert (id_of m) m [])
unfolding installing install_candidate install_accepted copy_origin origin_of
    install_manifest_atomic install_at install_ref stage_and_promote stage_files promote_stage
    stage_name safe_ref safe_dirname has_text dir_at upsert_local Dict.erase
install_effect_example =
    install_effect setup "token" once base_only echo_entry []
      (installed_reply (record { capability_id = "demo.echo"; version = "0.1.0" })) base_only-Holds
      new_token refl

abbrev echo_off : Fields
echo_off = put "enabled" (bool false) echo

echo_off-IsValid : IsValid echo_off
unfolding reading put
echo_off-IsValid = refl

no_echo : Dict.lookup "demo.echo" mail_entry ≡ none
unfolding reading
no_echo = refl

has_echo : Dict.lookup "demo.echo" echo_entry ≡ some echo
unfolding reading
has_echo = refl

remove_twice_example :
    let gone = remove "demo.echo" "0.1.0" with_mail in
    let again = remove "demo.echo" "0.1.0" gone.1 in
    (gone.0 ≡ ok true)
    × (again.0 ≡ ok true)
    × ((d : Dict Fields) × (merged_catalog again.1 ≡ (ok d, again.1))
        × (Dict.lookup "demo.echo" d ≡ some echo))
remove_twice_example =
    remove_twice with_mail echo_entry mail_entry "demo.echo" "0.1.0" echo with_mail-Holds no_echo
      has_echo echo_off-IsValid

shown : merged_catalog base_only ≡ (ok echo_entry, base_only)
unfolding reading merged_catalog Dict.update
shown = refl

search_lem_example :
    (cs : List Candidate) × (search setup "echo" end base_only ≡ (ok cs, base_only))
    × IsRanked cs
    × ((p : Candidate → Bool)
        → any p cs
          ≡ any
              (λ c. allowed_by (get "trust_allow" end) c && p c)
              (all_candidates setup "echo" end echo_entry))
search_lem_example = search_lem setup "echo" end base_only echo_entry shown

abbrev step : Fields
step = field "intent" (str "echo") end

step_named : text_or_empty (get "intent" step) ≢ ""
unfolding reading
step_named = λ e. cc

resolve_lem_example :
    (cs : List Candidate) × (search setup
        (text_or_empty (get "intent" step))
        (dict_or_empty (get "constraints" step))
        base_only
      ≡ (ok cs, base_only))
    × (is_ok (resolve setup (obj step) base_only).0 ≡ any (is_eligible setup.policy) cs)
    × ((c : Candidate)
        → (resolve setup (obj step) base_only).0 ≡ ok c
        → IsFirst (is_eligible setup.policy) c cs)
    × ((resolve setup (obj step) base_only).1 ≡ base_only)
resolve_lem_example = resolve_lem setup step base_only echo_entry shown step_named

-- The engine counts its runs and answers with the arguments.
abbrev counting : Engine (CapabilityStore × ℕ)
counting = record { run = λ manifest args (store, n). (ok (obj args), (store, 1 + n)) }

abbrev idle : Service ℕ
idle = record { store = base_only; guard = fresh_guard; world = 0 }

abbrev legacy : Option String
legacy = some "True"

run_outcome_example :
    Ran counting 5 legacy "demo.echo" end idle (run counting 5 legacy "demo.echo" (obj end) idle)
    ⊎ Refused idle (run counting 5 legacy "demo.echo" (obj end) idle)
run_outcome_example = run_outcome counting 5 legacy "demo.echo" end idle

rejects_value : (v : Value) → v ≢ null → errors_of v ≢ []
rejects_value null h = λ e. h refl
rejects_value _ h = λ e. cc

rejects : RejectsGovernance
rejects m h = rejects_value (get "governance_version" m) h

run_blocked_example : Refused idle (run counting 5 none "demo.echo" (obj end) idle)
unfolding lower
run_blocked_example = run_blocked counting 5 none "demo.echo" end idle rejects (λ e. cc)
