-- ===== src/Config/Sources.antt =====
-- src/config.py: where each setting of a loaded configuration comes from.
use unison_capabilities.Base.{
  String, ◌≡◌, refl, sym, ap, ◌∙◌, ◌||◌, false, Option, arith, if◌then◌else◌,
}
use unison_capabilities.Value.{
  Value, Fields, num, decimal, get, Python, text_or, text_if_truthy, to_int, truthy,
}
use unison_capabilities.Error.{value_or, Result, ok, bind-eq-ok}
use unison_capabilities.Config.{
  Env, Machine, ServiceConfig, nonempty, is_on, or_else, as_given, as_flag, as_int, section,
  env_overrides, load, read_config, rules, build_registries, build_authz, build, build_bind,
  build_auth, build_store, build_egress,
}
use unison_capabilities.Config.Overrides.{
  given, or_old, get-put_given, Overridden, env_overrides_lem,
}

-- A setting: the variable's value where it is set, else the file's.
abbrev pub setting : (String → Result Value) → Option String → String → String → Fields → Value
setting parse variable s k file = or_old (given parse variable) (get k (section s file))

-- The port where none is set.
abbrev pub or_port : Value → Value
or_port v = if truthy v then v else num (decimal false 8102 0)

module _ ⦃py : Python⦄ (env : Env) (file : Fields) (cfg : ServiceConfig) where
  -- Where the settings come from that say who may call the service and what it may reach.
  pub record ComesFrom : Type 0 where
    pub base_dir :
        cfg.store.base_dir
        ≡ text_or "/var/lib/unison/capabilities" (
            setting as_given
              (or_else
                (nonempty (env "UNISON_CAPABILITY_STORE_DIR"))
                (env "UNISON_CAPABILITY_STORE_BASE"))
              "store"
              "base_dir"
              file)
    pub mode :
        cfg.auth.mode
        ≡ text_or "unison_jwt"
            (setting as_given (env "UNISON_CAPABILITY_AUTH_MODE") "auth" "mode" file)
    pub token :
        cfg.auth.static_bearer_token
        ≡ text_if_truthy (
            setting as_given
              (env "UNISON_CAPABILITY_BEARER_TOKEN")
              "auth"
              "static_bearer_token"
              file)
    pub no_auth :
        cfg.auth.unsafe_allow_no_auth
        ≡ is_on (env "UNISON_CAPABILITY_UNSAFE_NO_AUTH")
          || truthy (get "unsafe_allow_no_auth" (section "auth" file))
    pub host :
        cfg.bind.host
        ≡ text_or "127.0.0.1" (setting as_given (env "UNISON_CAPABILITY_HOST") "bind" "host" file)
    pub port :
        to_int (or_port (setting as_int (env "UNISON_CAPABILITY_PORT") "bind" "port" file))
        ≡ ok cfg.bind.port
    pub uds_path :
        cfg.bind.uds_path
        ≡ text_if_truthy (setting as_given (env "UNISON_CAPABILITY_UDS") "bind" "uds_path" file)
    pub nonlocal :
        cfg.bind.unsafe_allow_nonlocal
        ≡ truthy (
            setting as_flag
              (env "UNISON_CAPABILITY_UNSAFE_ALLOW_NONLOCAL")
              "bind"
              "unsafe_allow_nonlocal"
              file)
    pub allowlist :
        cfg.egress.allowlist
        ≡ rules
            (setting as_given (env "UNISON_CAPABILITY_EGRESS_ALLOWLIST") "egress" "allowlist" file)
    pub denylist :
        cfg.egress.denylist
        ≡ rules
            (setting as_given (env "UNISON_CAPABILITY_EGRESS_DENYLIST") "egress" "denylist" file)
    pub private_networks :
        cfg.egress.allow_private_networks
        ≡ truthy (
            setting as_flag
              (env "UNISON_CAPABILITY_EGRESS_ALLOW_PRIVATE_NETWORKS")
              "egress"
              "allow_private_networks"
              file)
    pub registries : cfg.registries ≡ build_registries (section "registries" file)
    pub authz : build_authz (section "authz" file) ≡ ok cfg.authz

  -- The built configuration, once the environment has changed the file's settings.
  built : (d : Fields) → Overridden env file d → build d ≡ ok cfg → ComesFrom
  unfolding build build_bind build_auth build_store build_egress
  built d o h =
      let (bind, b, rest) = bind-eq-ok (build_bind (section "bind" d)) _ h in
      let (port, p, made) = bind-eq-ok (to_int _) _ b in
      let (authz, a, done) = bind-eq-ok (build_authz (section "authz" d)) _ rest in
      let same : get "port" (section "bind" d)
          ≡ setting as_int (env "UNISON_CAPABILITY_PORT") "bind" "port" file =
        rw (o.bind, get-put_given, get-put_given, get-put_given, get-put_given) refl in
      record {
        base_dir = rw (← ap (λ r. value_or cfg r) done, o.store, get-put_given) refl;
        mode =
            rw
              (← ap (λ r. value_or cfg r) done, o.auth, get-put_given, get-put_given, get-put_given)
              refl;
        token =
            rw
              (← ap (λ r. value_or cfg r) done, o.auth, get-put_given, get-put_given, get-put_given)
              refl;
        no_auth =
            rw
              (← ap (λ r. value_or cfg r) done, o.auth, get-put_given, get-put_given, get-put_given)
              (ground arith);
        host =
            rw
              (
                ← ap (λ r. value_or cfg r) done,
                ← ap (λ r. value_or bind r) made,
                o.bind,
                get-put_given,
                get-put_given,
                get-put_given,
                get-put_given,
              )
              refl;
        port =
            rw (← ap (λ r. value_or cfg r) done, ← ap (λ r. value_or bind r) made)
              (ap (λ v. to_int (or_port v)) (sym same) ∙ p);
        uds_path =
            rw
              (
                ← ap (λ r. value_or cfg r) done,
                ← ap (λ r. value_or bind r) made,
                o.bind,
                get-put_given,
                get-put_given,
                get-put_given,
                get-put_given,
              )
              refl;
        nonlocal =
            rw
              (
                ← ap (λ r. value_or cfg r) done,
                ← ap (λ r. value_or bind r) made,
                o.bind,
                get-put_given,
                get-put_given,
                get-put_given,
                get-put_given,
              )
              refl;
        allowlist =
            rw
              (
                ← ap (λ r. value_or cfg r) done,
                o.egress,
                get-put_given,
                get-put_given,
                get-put_given,
              )
              refl;
        denylist =
            rw
              (
                ← ap (λ r. value_or cfg r) done,
                o.egress,
                get-put_given,
                get-put_given,
                get-put_given,
              )
              refl;
        private_networks =
            rw
              (
                ← ap (λ r. value_or cfg r) done,
                o.egress,
                get-put_given,
                get-put_given,
                get-put_given,
              )
              refl;
        registries = rw (← ap (λ r. value_or cfg r) done, o.registries) refl;
        authz = rw (← ap (λ r. value_or cfg r) done, ← o.authz) a;
      }

module _ ⦃py : Python⦄ where
  -- For a configuration that is loaded, the file was read, and each of these settings comes from
  -- its variable where that is set, else from the file, else it is the default; the flag that
  -- allows calls without authentication is on exactly where the variable or the file turns it on.
  pub load_lem :
      (machine : Machine) (cfg : ServiceConfig)
      → load machine ≡ ok cfg
      → (file : Fields) × (read_config machine ≡ ok file) × ComesFrom machine.getenv file cfg
  unfolding load
  load_lem machine cfg h =
      let (file, got, rest) = bind-eq-ok (read_config machine) _ h in
      let (d, set, done) = bind-eq-ok (env_overrides machine.getenv file) _ rest in
      (
        file,
        got,
        built machine.getenv file cfg d (env_overrides_lem machine.getenv file d set) done,
      )
