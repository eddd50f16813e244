-- ===== src/Policy/Run.antt =====
-- What `enforce_run` of src/policy.py guarantees.
use unison_capabilities.Base.{
  String, ◌≡◌, ◌≢◌, ◌⊎◌, true, false, Option, some, [], ◌∷◌, arith, any, member, eq_iff,
}
use unison_capabilities.Value.{Fields, obj, str, bool, Python, get, list_or_empty}
use unison_capabilities.Error.{ok}
use unison_capabilities.Policy.{enforce_run, is_oauth_secret}

-- The declared channel of a manifest, where it binds the requests.
abbrev pub Declares : Fields → String → Type 0
Declares m c = (ex : Fields) × (get "execution" m ≡ obj ex) × (get "channel" ex ≡ str c)

binding_channel :
    (c : String)
    → (c ≡ "programmatic") ⊎ (c ≡ "vdi_vpn")
    → member c ("programmatic" ∷ "vdi_vpn" ∷ []) ≡ true
unfolding member
binding_channel c bound = ground (arith, eq_iff c "programmatic", eq_iff c "vdi_vpn")

module _ ⦃py : Python⦄ where
  -- What the policy asks of a manifest and a requested channel.
  pub record MayRun (m : Fields) (requested : Option String) : Type 0 where
    pub enabled : get "enabled" m ≢ bool false
    pub onboarded :
        get "requires_oauth" m ≡ bool true
        → any is_oauth_secret (list_or_empty (get "secrets" m)) ≡ true
    pub channel :
        (c r : String)
        → (c ≡ "programmatic") ⊎ (c ≡ "vdi_vpn")
        → Declares m c
        → requested ≡ some r
        → r ≢ ""
        → r ≡ c

  -- A run that the policy lets through is of a capability that is not disabled, that has an OAuth
  -- secret if it requires one, and whose declared channel, if it is `programmatic` or `vdi_vpn`,
  -- is the requested one wherever a non-empty channel is requested.
  pub enforce_run_sound :
      (m : Fields) (requested : Option String)
      → enforce_run m requested ≡ ok tt
      → MayRun m requested
  unfolding enforce_run
  enforce_run_sound m requested h = record {
    enabled = λ e. ground arith;
    onboarded = λ e. ground arith;
    channel = λ c r bound (ex, e, d) q n.
        ground (arith, binding_channel c bound, eq_iff r "", eq_iff r c);
  }
