-- ===== src/Config.antt =====
-- src/config.py: the configuration from the YAML file and the environment. The parsed file is a
-- parameter, read as a tree: two sections that a YAML alias makes one dict are two here.
pub mod Overrides
pub mod Sources
use unison_capabilities.Base.{
  String, Bool, true, false, not, Option, none, some, List, [], ◌∷◌, ◌==◌, is_empty, keep_if, strip,
  lower, split_csv, member, if◌then◌else◌,
}
use unison_capabilities.Value.{
  Number, decimal, Value, Fields, end, field, obj, arr, str, num, bool, null, items, Python, get,
  put, get_default, dict_or_empty, text_or, text_or_empty, text_if_truthy, to_int, truthy,
}
use unison_capabilities.Value.Compare.{iterate}
use unison_capabilities.Error.{Result, ok, err, python_error, ◌>>=◌}
use unison_capabilities.Policy.{env_or}
use unison_capabilities.Egress.{EgressConfig, rule_texts}
use unison_capabilities.Security.{AuthConfig, AuthzConfig}

pub record BindConfig : Type 0 where
  pub host : String
  pub port : Number
  pub uds_path : Option String
  pub unsafe_allow_nonlocal : Bool

pub record StoreConfig : Type 0 where
  pub base_dir : String

pub record RegistriesConfig : Type 0 where
  pub static_catalog_path : Option String
  pub http_catalog_urls : List String

pub record ServiceConfig : Type 0 where
  pub service_name : String
  pub version : String
  pub schema_version : String
  pub bind : BindConfig
  pub auth : AuthConfig
  pub authz : AuthzConfig
  pub store : StoreConfig
  pub egress : EgressConfig
  pub registries : RegistriesConfig

-- `os.getenv`, `Path.exists`, and `yaml.safe_load` of the text of a file
pub record Machine : Type 0 where
  pub getenv : String → Option String
  pub exists : String → Bool
  pub safe_load : String → Result Value

abbrev pub Env : Type 0
Env = String → Option String

-- `if value:` on a variable
unfoldable pub nonempty : Option String → Option String
nonempty none = none
nonempty (some s) = if s == "" then none else some s

abbrev pub or_else : {A : Type 0} → Option A → Option A → Option A
or_else none b = b
or_else (some a) b = some a

-- `(value or "").lower() in {"1", "true", "yes", "on"}`
unfoldable pub is_on : Option String → Bool
is_on value = member (lower (env_or "" value)) ("1" ∷ "true" ∷ "yes" ∷ "on" ∷ [])

abbrev pub first_existing : (String → Bool) → List String → Option String
first_existing exists [] = none
first_existing exists (p ∷ ps) =
    let rest = first_existing exists ps in if exists p then some p else rest

-- The file that is read, if there is one.
unfoldable pub config_path : Machine → Option String
config_path machine = or_else (nonempty (machine.getenv "UNISON_CAPABILITY_CONFIG")) (
    first_existing machine.exists
      ("/etc/unison/unison-capability.yaml" ∷ "/etc/unison/unison-capability.yml" ∷ []))

-- the file's object; what is no object counts as an empty one
unfoldable pub read_config : Machine → Result Fields
read_config machine = elim (config_path machine) [
  | none ↦ ok end
  | some path ↦ machine.safe_load path >>= λ v. ok (dict_or_empty v)
]

-- `data.setdefault(section, {})`, then `data[section][key] = value`, which only a dict takes
unfoldable pub set_in : String → String → Value → Fields → Result Fields
set_in section key value settings = elim (get_default section (obj end) settings) [
  | obj fs ↦ ok (put section (obj (put key value fs)) settings)
  | _ ↦ err (python_error "TypeError")
]

abbrev pub override_at :
    (String → Result Value) → Option String → String → String → Fields → Result Fields
override_at parse none section key settings = ok settings
override_at parse (some s) section key settings =
    parse s >>= λ value. set_in section key value settings

-- The value of a variable under a section's key, where the variable is set.
unfoldable pub override_by :
    (String → Result Value) → Option String → String → String → Fields → Result Fields
override_by parse variable = override_at parse (nonempty variable)

abbrev pub as_given : String → Result Value
as_given s = ok (str s)

abbrev pub as_flag : String → Result Value
as_flag s = ok (bool (is_on (some s)))

-- `UNISON_CAPABILITY_UNSAFE_NO_AUTH` can only switch the flag on.
unfoldable pub allow_no_auth : Option String → Fields → Result Fields
allow_no_auth variable settings =
    if is_on variable
    then set_in "auth" "unsafe_allow_no_auth" (bool true) settings
    else ok settings

unfoldable pub store_override : Env → Fields → Result Fields
store_override env =
    override_by as_given
      (or_else (nonempty (env "UNISON_CAPABILITY_STORE_DIR")) (env "UNISON_CAPABILITY_STORE_BASE"))
      "store" "base_dir"

unfoldable pub auth_overrides : Env → Fields → Result Fields
auth_overrides env settings = do
  settings ← override_by as_given (env "UNISON_CAPABILITY_AUTH_MODE") "auth" "mode" settings
  settings ←
      override_by as_given (env "UNISON_CAPABILITY_BEARER_TOKEN") "auth" "static_bearer_token"
        settings
  allow_no_auth (env "UNISON_CAPABILITY_UNSAFE_NO_AUTH") settings

unfoldable pub egress_overrides : Env → Fields → Result Fields
egress_overrides env settings = do
  settings ←
      override_by as_given (env "UNISON_CAPABILITY_EGRESS_ALLOWLIST") "egress" "allowlist" settings
  settings ←
      override_by as_given (env "UNISON_CAPABILITY_EGRESS_DENYLIST") "egress" "denylist" settings
  override_by as_flag (env "UNISON_CAPABILITY_EGRESS_ALLOW_PRIVATE_NETWORKS") "egress"
      "allow_private_networks" settings

abbrev pub section : String → Fields → Fields
section name settings = dict_or_empty (get name settings)

module _ ⦃py : Python⦄ where
  abbrev pub as_int : String → Result Value
  as_int s = py.int_of s >>= λ n. ok (num n)

  unfoldable pub bind_overrides : Env → Fields → Result Fields
  bind_overrides env settings = do
    settings ←
        override_by as_flag (env "UNISON_CAPABILITY_UNSAFE_ALLOW_NONLOCAL") "bind"
          "unsafe_allow_nonlocal" settings
    settings ← override_by as_given (env "UNISON_CAPABILITY_HOST") "bind" "host" settings
    settings ← override_by as_int (env "UNISON_CAPABILITY_PORT") "bind" "port" settings
    override_by as_given (env "UNISON_CAPABILITY_UDS") "bind" "uds_path" settings

  unfoldable pub env_overrides : Env → Fields → Result Fields
  env_overrides env settings = do
    settings ← store_override env settings
    settings ← auth_overrides env settings
    settings ← bind_overrides env settings
    egress_overrides env settings

  unfoldable pub build_bind : Fields → Result BindConfig
  build_bind d = do
    port ← to_int (if truthy (get "port" d) then get "port" d else num (decimal false 8102 0))
    ok (record {
      host = text_or "127.0.0.1" (get "host" d);
      port = port;
      uds_path = text_if_truthy (get "uds_path" d);
      unsafe_allow_nonlocal = truthy (get "unsafe_allow_nonlocal" d);
    })

  unfoldable pub build_auth : Fields → AuthConfig
  build_auth d = record {
    mode = text_or "unison_jwt" (get "mode" d);
    static_bearer_token = text_if_truthy (get "static_bearer_token" d);
    unsafe_allow_no_auth = truthy (get "unsafe_allow_no_auth" d);
  }

  abbrev pub role_names : List Value → List String
  role_names [] = []
  role_names (str s ∷ vs) = s ∷ role_names vs
  role_names (v ∷ vs) = role_names vs

  -- `list(v or default)`; an element that is no string is left out, since it equals no role and no
  -- name (a list or a dict among the services, which `set` refuses in src/security.py, is not
  -- modelled)
  unfoldable pub role_list : List String → Value → Result (List String)
  role_list default v = if truthy v then (iterate v >>= λ vs. ok (role_names vs)) else ok default

  unfoldable pub build_authz : Fields → Result AuthzConfig
  build_authz d = do
    read_roles ← role_list ("service" ∷ "operator" ∷ "admin" ∷ []) (get "read_roles" d)
    run_roles ← role_list ("service" ∷ "operator" ∷ "admin" ∷ []) (get "run_roles" d)
    admin_roles ← role_list ("operator" ∷ "admin" ∷ []) (get "admin_roles" d)
    install ← role_list ("service-orchestrator" ∷ []) (get "install_allowed_services" d)
    remove ← role_list ("service-orchestrator" ∷ []) (get "remove_allowed_services" d)
    ok (record {
      read_roles = read_roles;
      run_roles = run_roles;
      admin_roles = admin_roles;
      install_allowed_services = install;
      remove_allowed_services = remove;
    })

  unfoldable pub build_store : Fields → StoreConfig
  build_store d = record { base_dir = text_or "/var/lib/unison/capabilities" (get "base_dir" d) }

  -- The rules as a list, or as one text with commas.
  unfoldable pub rules : Value → List String
  rules (arr vs) = rule_texts (items vs)
  rules v = if truthy v then split_csv (text_or_empty v) else []

  unfoldable pub build_egress : Fields → EgressConfig
  build_egress d = record {
    allowlist = rules (get "allowlist" d);
    denylist = rules (get "denylist" d);
    allow_private_networks = truthy (get "allow_private_networks" d);
  }

  abbrev pub http_urls : Value → List String
  http_urls (str s) = split_csv s
  http_urls (arr vs) = rule_texts (items vs)
  http_urls v = []

  unfoldable pub build_registries : Fields → RegistriesConfig
  build_registries d =
      let urls = get "http_catalog_urls" d in
      record {
        static_catalog_path = text_if_truthy (get "static_catalog_path" d);
        http_catalog_urls =
            keep_if (λ x. not (strip x == ""))
              (http_urls (if truthy urls then urls else get "http_catalogs" d));
      }

  unfoldable pub build : Fields → Result ServiceConfig
  build settings = do
    bind ← build_bind (section "bind" settings)
    authz ← build_authz (section "authz" settings)
    ok (record {
      service_name = text_or "unison-capability" (get "service_name" settings);
      version = text_or "0.1.0" (get "version" settings);
      schema_version = text_or "capability.manifest.v0.1" (get "schema_version" settings);
      bind = bind;
      auth = build_auth (section "auth" settings);
      authz = authz;
      store = build_store (section "store" settings);
      egress = build_egress (section "egress" settings);
      registries = build_registries (section "registries" settings);
    })

  unfoldable pub load : Machine → Result ServiceConfig
  load machine = do
    file ← read_config machine
    settings ← env_overrides machine.getenv file
    build settings
