-- ===== src/Tests/Settings.antt =====
-- The configuration, the atomic write and the lock on concrete data.
use unison_capabilities.Base.{
  ℕ, ◌≡◌, refl, true, false, none, some, [], ◌∷◌, ◌==◌, arith, split_csv, strip, lower, member,
  if◌then◌else◌,
}
use unison_capabilities.Base.Dict
use unison_capabilities.Value.{
  Fields, end, field, obj, str, null, decimal, get, has, put, to_int, text_or, text_if_truthy,
}
use unison_capabilities.Error.{ok, err, python_error}
use unison_capabilities.Config.{
  Machine, ServiceConfig, load, config_path, nonempty, is_on, read_config, set_in, override_by,
  allow_no_auth, store_override, auth_overrides, bind_overrides, egress_overrides, env_overrides,
  build_bind, build_auth, role_list, build_authz, build_store, rules, build_egress,
  build_registries, build,
}
use unison_capabilities.Config.Sources.{ComesFrom, load_lem}
use unison_capabilities.Atomic.{
  Disk, FileEntry, Folder, atomic_write_text, write_and_replace, unlink_temp,
}
use unison_capabilities.Atomic
use unison_capabilities.Atomic.Whole.{IsWhole, atomic_write_text-IsWhole}
use unison_capabilities.Locks.{
  shared, exclusive, lock_ex, flock, body, flock_un, close_file, flock_of, calls_of, Shared, set,
  at_call, enter, opens, locks, Reach, at_start, after,
}
use unison_capabilities.Locks.Exclusion.{Free, IsExclusive, Reach-IsExclusive}
use unison_capabilities.Locks.Isolation.{nothing, then_step, isolated}
use unison_capabilities.Tests.Fixtures.{plain_python}

-- A file with one section, and the name of the host in the environment.
abbrev machine : Machine
machine = record {
  getenv = λ k.
      if k == "UNISON_CAPABILITY_HOST"
      then some "localhost"
      else if k == "UNISON_CAPABILITY_UNSAFE_NO_AUTH"
      then some "Yes"
      else none;
  exists = λ p. p == "/etc/unison/unison-capability.yaml";
  safe_load = λ p.
      ok (obj (field "bind" (obj (field "host" (str "::1") (field "port" (str "9000") end))) end));
}

-- the same, with a section that is there and empty
abbrev null_section : Machine
null_section = record machine { safe_load = λ p. ok (obj (field "bind" null end)) }

loading : Unit {0}
unfolding load config_path nonempty is_on read_config set_in override_by allow_no_auth
    store_override auth_overrides bind_overrides egress_overrides env_overrides build_bind
    build_auth role_list build_authz build_store rules build_egress build_registries build get has
    put Dict.lookup Dict.insert to_int text_or text_if_truthy strip lower split_csv member
loading = tt

abbrev pub loaded : ServiceConfig
loaded = record {
  service_name = "unison-capability";
  version = "0.1.0";
  schema_version = "capability.manifest.v0.1";
  bind = record {
    host = "localhost";
    port = decimal false 9000 0;
    uds_path = none;
    unsafe_allow_nonlocal = false;
  };
  auth = record { mode = "unison_jwt"; static_bearer_token = none; unsafe_allow_no_auth = true };
  authz = record {
    read_roles = "service" ∷ "operator" ∷ "admin" ∷ [];
    run_roles = "service" ∷ "operator" ∷ "admin" ∷ [];
    admin_roles = "operator" ∷ "admin" ∷ [];
    install_allowed_services = "service-orchestrator" ∷ [];
    remove_allowed_services = "service-orchestrator" ∷ [];
  };
  store = record { base_dir = "/var/lib/unison/capabilities" };
  egress = record { allowlist = []; denylist = []; allow_private_networks = false };
  registries = record { static_catalog_path = none; http_catalog_urls = [] };
}

load_test : load machine ≡ ok loaded
unfolding loading
load_test = refl

-- A section that is null takes no variable.
null_section_test : load null_section ≡ err (python_error "TypeError")
unfolding loading
null_section_test = refl

load_lem_example :
    (file : Fields) × (read_config machine ≡ ok file) × ComesFrom machine.getenv file loaded
unfolding loading
load_lem_example = load_lem machine loaded refl

-- A disk that raises when it replaces the file.
abbrev stuck : Disk
stuck = record {
  fault = λ step. elim step [ Atomic.replace ↦ some "EIO" | _ ↦ none ];
  torn = "half";
}

abbrev old_folder : Folder
old_folder = ("catalog.json", record { content = "old"; mode = 384 }) ∷ []

atomic_write_text-IsWhole_example :
    IsWhole stuck
      ("catalog.json.x1")
      "catalog.json"
      (record { content = "new"; mode = 384 })
      old_folder
      (atomic_write_text stuck "x1" "catalog.json" "new" 384 old_folder).0
      (atomic_write_text stuck "x1" "catalog.json" "new" 384 old_folder).1
unfolding Dict.lookup
atomic_write_text-IsWhole_example =
    atomic_write_text-IsWhole stuck "x1" "catalog.json" "new" 384 old_folder refl refl

atomic_write_test :
    atomic_write_text stuck "x1" "catalog.json" "new" 384 old_folder
    ≡ (err (python_error "EIO"), old_folder)
unfolding atomic_write_text write_and_replace unlink_temp Dict.lookup Dict.insert Dict.erase
atomic_write_test = refl

-- `flock` that grants whatever it may, and two uses: the first is inside an exclusive section, the
-- second opens the file.
abbrev start : Shared ℕ
start = record { rest = λ i. []; held = λ i. none; store = 7 }

abbrev entered : Shared ℕ
entered = at_call start 0 (calls_of exclusive) none

abbrev at_lock : Shared ℕ
at_lock = at_call entered 0 (flock lock_ex ∷ body exclusive ∷ flock_un ∷ close_file ∷ []) none

abbrev first_inside : Shared ℕ
first_inside = at_call at_lock 0 (body exclusive ∷ flock_un ∷ close_file ∷ []) (some lock_ex)

using : Unit {0}
unfolding set calls_of flock_of
using = tt

none_held : Free at_lock.held 0 lock_ex
unfolding using
none_held j other = ground arith

inside_reached : Reach Free 7 first_inside
unfolding using
inside_reached =
    after
      (after (after at_start (enter 0 exclusive refl))
        (opens 0 (flock lock_ex ∷ body exclusive ∷ flock_un ∷ close_file ∷ []) refl))
      (locks 0 lock_ex (body exclusive ∷ flock_un ∷ close_file ∷ []) refl none_held)

Reach-IsExclusive_example : IsExclusive first_inside
Reach-IsExclusive_example = Reach-IsExclusive Free (λ p i m g. g) inside_reached

abbrev second_entered : Shared ℕ
second_entered = at_call first_inside 1 (calls_of shared) none

isolated_example :
    (second_entered.store ≡ 7)
    × (second_entered.rest 0 ≡ body exclusive ∷ flock_un ∷ close_file ∷ [])
unfolding using
isolated_example =
    isolated Free (λ p i m g. g) 0 exclusive inside_reached (flock_un ∷ close_file ∷ [], refl)
      (then_step nothing (enter 1 shared refl) (λ e. omega arith) tt)
