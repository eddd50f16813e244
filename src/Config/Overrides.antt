-- ===== src/Config/Overrides.antt =====
-- src/config.py: what the environment makes of the settings of each section.
use unison_capabilities.Base.{
  String, ◌≡◌, refl, inl, inr, true, false, Option, none, some, arith, ◌==◌, eq_refl, Option-cases,
  if◌then◌else◌,
}
use unison_capabilities.Base.Dict
use unison_capabilities.Value.{Value, Fields, entries, obj, bool, get, has, put, get-put, Python}
use unison_capabilities.Error
use unison_capabilities.Error.{Result, ok, err, attempt, bind-eq-ok}
use unison_capabilities.Config.{
  Env, nonempty, is_on, or_else, set_in, override_by, allow_no_auth, as_given, as_flag, as_int,
  section, store_override, auth_overrides, bind_overrides, egress_overrides, env_overrides,
}

-- The section that an entry is set in, `{}` where there was none.
set_in-cases :
    (s k : String) (v : Value) (d d' : Fields) (o : Option Value)
    → Dict.lookup s (entries d) ≡ o
    → set_in s k v d ≡ ok d'
    → d' ≡ put s (obj (put k v (section s d))) d
unfolding set_in get has
set_in-cases s k v d d' none found h = ground arith
set_in-cases s k v d d' (some (obj fs)) found h = ground arith
set_in-cases s k v d d' (some value) found h = ground arith

set_in_lem :
    (s k : String) (v : Value) (d d' : Fields)
    → set_in s k v d ≡ ok d'
    → d' ≡ put s (obj (put k v (section s d))) d
set_in_lem s k v d d' = set_in-cases s k v d d' (Dict.lookup s (entries d)) refl

-- An entry that is set goes into its own section alone.
set_in_same :
    (s k : String) (v : Value) (d d' : Fields)
    → set_in s k v d ≡ ok d'
    → section s d' ≡ put k v (section s d)
set_in_same s k v d d' h = rw (set_in_lem s k v d d' h, get-put) (ground (arith, eq_refl s))

set_in_other :
    (s k t : String) (v : Value) (d d' : Fields)
    → s == t ≡ false
    → set_in s k v d ≡ ok d'
    → section t d' ≡ section t d
set_in_other s k t v d d' other h = rw (set_in_lem s k v d d' h, get-put, other) refl

abbrev parsed : (String → Result Value) → Option String → Option Value
parsed parse none = none
parsed parse (some s) = attempt (parse s)

-- What a variable sets, if it is set and can be read.
abbrev pub given : (String → Result Value) → Option String → Option Value
given parse variable = parsed parse (nonempty variable)

abbrev pub or_old : Option Value → Value → Value
or_old none old = old
or_old (some v) old = v

abbrev pub put_given : String → Option Value → Fields → Fields
put_given k none m = m
put_given k (some v) m = put k v m

pub get-put_given :
    (j k : String) (o : Option Value) (m : Fields)
    → get j (put_given k o m) ≡ (if k == j then or_old o (get j m) else get j m)
get-put_given j k none m = ground arith
get-put_given j k (some v) m = get-put j k v m

module _ (parse : String → Result Value) (variable : Option String) (s k : String)
    (d d' : Fields) where
  override_by_same :
      override_by parse variable s k d ≡ ok d'
      → section s d' ≡ put_given k (given parse variable) (section s d)
  unfolding override_by
  override_by_same h = elim (Option-cases (nonempty variable)) [
    | inl unset ↦
        let same : ok d ≡ ok d' = rw unset at h in let same : d ≡ d' = cc in rw (unset, ← same) refl
    | inr (text, set) ↦
        let at_set : Error.◌>>=◌ (parse text) (λ v. set_in s k v d) ≡ ok d' = rw set at h in
        let (v, got, on) = bind-eq-ok (parse text) _ at_set in
        rw (set, got) (set_in_same s k v d d' on)
  ]

  override_by_other :
      (t : String)
      → s == t ≡ false
      → override_by parse variable s k d ≡ ok d'
      → section t d' ≡ section t d
  unfolding override_by
  override_by_other t other h = elim (Option-cases (nonempty variable)) [
    | inl unset ↦
        let same : ok d ≡ ok d' = rw unset at h in let same : d ≡ d' = cc in rw (← same) refl
    | inr (text, set) ↦
        let at_set : Error.◌>>=◌ (parse text) (λ v. set_in s k v d) ≡ ok d' = rw set at h in
        let (v, got, on) = bind-eq-ok (parse text) _ at_set in set_in_other s k t v d d' other on
  ]

abbrev pub no_auth_given : Option String → Option Value
no_auth_given variable = if is_on variable then some (bool true) else none

module _ (variable : Option String) (d d' : Fields) where
  allow_no_auth_same :
      allow_no_auth variable d ≡ ok d'
      → section "auth" d'
        ≡ put_given "unsafe_allow_no_auth" (no_auth_given variable) (section "auth" d)
  unfolding allow_no_auth
  allow_no_auth_same h = ground (arith, set_in_same "auth" "unsafe_allow_no_auth" (bool true) d d')

  allow_no_auth_other :
      (t : String)
      → "auth" == t ≡ false
      → allow_no_auth variable d ≡ ok d'
      → section t d' ≡ section t d
  unfolding allow_no_auth
  allow_no_auth_other t other h =
      ground (arith, set_in_other "auth" "unsafe_allow_no_auth" t (bool true) d d')

-- How a group of variables changes the settings: its own section, and no other.
record Changed (own : String) (set : Fields → Fields) (d d' : Fields) : Type 0 where
  same : section own d' ≡ set (section own d)
  other : (t : String) → own == t ≡ false → section t d' ≡ section t d

both :
    {own : String} {f g : Fields → Fields} {d d1 d2 : Fields}
    → Changed own f d d1
    → Changed own g d1 d2
    → Changed own (λ m. g (f m)) d d2
both first next = record {
  same = rw (next.same, first.same) refl;
  other = λ t o. rw (next.other t o, first.other t o) refl;
}

override_by_lem :
    {d d' : Fields} (parse : String → Result Value) (variable : Option String) (s k : String)
    → override_by parse variable s k d ≡ ok d'
    → Changed s (put_given k (given parse variable)) d d'
override_by_lem {d} {d'} parse variable s k h = record {
  same = override_by_same parse variable s k d d' h;
  other = λ t o. override_by_other parse variable s k d d' t o h;
}

allow_no_auth_lem :
    {d d' : Fields} (variable : Option String)
    → allow_no_auth variable d ≡ ok d'
    → Changed "auth" (put_given "unsafe_allow_no_auth" (no_auth_given variable)) d d'
allow_no_auth_lem {d} {d'} variable h = record {
  same = allow_no_auth_same variable d d' h;
  other = λ t o. allow_no_auth_other variable d d' t o h;
}

-- The entries that the variables set in each section.
abbrev pub store_set : Env → Fields → Fields
store_set env = put_given "base_dir" (
    given as_given
      (or_else (nonempty (env "UNISON_CAPABILITY_STORE_DIR")) (env "UNISON_CAPABILITY_STORE_BASE")))

abbrev pub auth_set : Env → Fields → Fields
auth_set env m =
    put_given "unsafe_allow_no_auth" (no_auth_given (env "UNISON_CAPABILITY_UNSAFE_NO_AUTH")) (
      put_given "static_bearer_token" (given as_given (env "UNISON_CAPABILITY_BEARER_TOKEN"))
        (put_given "mode" (given as_given (env "UNISON_CAPABILITY_AUTH_MODE")) m))

abbrev pub bind_set : ⦃py : Python⦄ → Env → Fields → Fields
bind_set env m = put_given "uds_path" (given as_given (env "UNISON_CAPABILITY_UDS")) (
    put_given "port" (given as_int (env "UNISON_CAPABILITY_PORT")) (
      put_given "host" (given as_given (env "UNISON_CAPABILITY_HOST")) (
        put_given "unsafe_allow_nonlocal"
          (given as_flag (env "UNISON_CAPABILITY_UNSAFE_ALLOW_NONLOCAL")) m)))

abbrev pub egress_set : Env → Fields → Fields
egress_set env m =
    put_given "allow_private_networks"
      (given as_flag (env "UNISON_CAPABILITY_EGRESS_ALLOW_PRIVATE_NETWORKS"))
      (put_given "denylist" (given as_given (env "UNISON_CAPABILITY_EGRESS_DENYLIST"))
        (put_given "allowlist" (given as_given (env "UNISON_CAPABILITY_EGRESS_ALLOWLIST")) m))

module _ (env : Env) (d d' : Fields) where
  store_override_lem : store_override env d ≡ ok d' → Changed "store" (store_set env) d d'
  unfolding store_override
  store_override_lem h = override_by_lem as_given _ "store" "base_dir" h

  auth_overrides_lem : auth_overrides env d ≡ ok d' → Changed "auth" (auth_set env) d d'
  unfolding auth_overrides
  auth_overrides_lem h =
      let (d1, h1, rest) =
        bind-eq-ok (override_by as_given (env "UNISON_CAPABILITY_AUTH_MODE") "auth" "mode" d) _ h in
      let (d2, h2, h3) =
        bind-eq-ok
          (override_by as_given (env "UNISON_CAPABILITY_BEARER_TOKEN") "auth" "static_bearer_token"
            d1)
          _ rest in
      both (override_by_lem as_given _ "auth" "mode" h1)
        (both (override_by_lem as_given _ "auth" "static_bearer_token" h2) (allow_no_auth_lem _ h3))

  egress_overrides_lem : egress_overrides env d ≡ ok d' → Changed "egress" (egress_set env) d d'
  unfolding egress_overrides
  egress_overrides_lem h =
      let (d1, h1, rest) =
        bind-eq-ok
          (override_by as_given (env "UNISON_CAPABILITY_EGRESS_ALLOWLIST") "egress" "allowlist" d) _
          h in
      let (d2, h2, h3) =
        bind-eq-ok
          (override_by as_given (env "UNISON_CAPABILITY_EGRESS_DENYLIST") "egress" "denylist" d1) _
          rest in
      both (override_by_lem as_given _ "egress" "allowlist" h1) (
        both (override_by_lem as_given _ "egress" "denylist" h2)
          (override_by_lem as_flag _ "egress" "allow_private_networks" h3))

module _ ⦃py : Python⦄ (env : Env) (d d' : Fields) where
  bind_overrides_lem : bind_overrides env d ≡ ok d' → Changed "bind" (bind_set env) d d'
  unfolding bind_overrides
  bind_overrides_lem h =
      let (d1, h1, rest) =
        bind-eq-ok
          (override_by as_flag (env "UNISON_CAPABILITY_UNSAFE_ALLOW_NONLOCAL") "bind"
            "unsafe_allow_nonlocal" d)
          _ h in
      let (d2, h2, rest) =
        bind-eq-ok (override_by as_given (env "UNISON_CAPABILITY_HOST") "bind" "host" d1) _ rest in
      let (d3, h3, h4) =
        bind-eq-ok (override_by as_int (env "UNISON_CAPABILITY_PORT") "bind" "port" d2) _ rest in
      both (override_by_lem as_flag _ "bind" "unsafe_allow_nonlocal" h1) (
        both (override_by_lem as_given _ "bind" "host" h2) (
          both (override_by_lem as_int _ "bind" "port" h3)
            (override_by_lem as_given _ "bind" "uds_path" h4)))

module _ ⦃py : Python⦄ (env : Env) (d d' : Fields) where
  -- What the environment makes of each section.
  pub record Overridden : Type 0 where
    pub store : section "store" d' ≡ store_set env (section "store" d)
    pub auth : section "auth" d' ≡ auth_set env (section "auth" d)
    pub bind : section "bind" d' ≡ bind_set env (section "bind" d)
    pub egress : section "egress" d' ≡ egress_set env (section "egress" d)
    pub authz : section "authz" d' ≡ section "authz" d
    pub registries : section "registries" d' ≡ section "registries" d

  pub env_overrides_lem : env_overrides env d ≡ ok d' → Overridden
  unfolding env_overrides
  env_overrides_lem h =
      let (d1, h1, rest) = bind-eq-ok (store_override env d) _ h in
      let (d2, h2, rest) = bind-eq-ok (auth_overrides env d1) _ rest in
      let (d3, h3, h4) = bind-eq-ok (bind_overrides env d2) _ rest in
      let c1 = store_override_lem env d d1 h1 in
      let c2 = auth_overrides_lem env d1 d2 h2 in
      let c3 = bind_overrides_lem env d2 d3 h3 in
      let c4 = egress_overrides_lem env d3 d' h4 in
      record {
        store = rw (c4.other "store" refl, c3.other "store" refl, c2.other "store" refl) c1.same;
        auth = rw (c4.other "auth" refl, c3.other "auth" refl, c2.same, c1.other "auth" refl) refl;
        bind = rw (c4.other "bind" refl, c3.same, c2.other "bind" refl, c1.other "bind" refl) refl;
        egress =
            rw (c4.same, c3.other "egress" refl, c2.other "egress" refl, c1.other "egress" refl)
              refl;
        authz =
            rw
              (
                c4.other "authz" refl,
                c3.other "authz" refl,
                c2.other "authz" refl,
                c1.other "authz" refl,
              )
              refl;
        registries =
            rw
              (
                c4.other "registries" refl,
                c3.other "registries" refl,
                c2.other "registries" refl,
                c1.other "registries" refl,
              )
              refl;
      }
