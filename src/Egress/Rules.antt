-- ===== src/Egress/Rules.antt =====
-- What the checks of src/egress.py let through.
use unison_capabilities.Base.{
  String, ◌<>◌, [], ◌∷◌, and_left, and_right, is_empty, ends_with-append, ◌≡◌, ◌≢◌, refl, ◌↔◌, ◌⊎◌,
  inl, inr, Bool, true, false, not, ◌&&◌, List, arith, any, ◌==◌, eq_iff, strip, lower, starts_with,
  ends_with, tail_text, member, Bool-cases,
}
use unison_capabilities.Value.{Fields, Python, get, dict_or_empty, list_or_empty}
use unison_capabilities.Error.{Result, ok, policy_error, raise_if, ◌>>◌}
use unison_capabilities.Egress.{
  UrlParts, Network, EgressConfig, host_matches, rule_matches, first_match, deny_matched,
  is_private_or_loopback, check_host, check_url, enforce_manifest_network, rule_texts, network_mode,
  check_mode,
}

-- A rule for hosts matches its own name, the names below it at a dot, and, if it starts with `*.`,
-- the names that end in what follows the star; blanks at the ends and case do not count.
pub host_matches_sound :
    (rule host : String)
    → host_matches rule host ≡ true
    → let r = lower (strip rule) in
      let h = lower (strip host) in
      (r ≢ "")
      × ((h ≡ r)
          ⊎ ((p : String) × (h ≡ p <> ("." <> r)))
          ⊎ ((starts_with r "*." ≡ true) × ((p : String) × (h ≡ p <> tail_text r))))
unfolding host_matches
host_matches_sound rule host h =
    let r = lower (strip rule) in
    let n = lower (strip host) in
    let named : r ≢ "" = λ e. ground (arith, eq_iff r "") in
    elim (Bool-cases (starts_with r "*." && ends_with n (tail_text r))) [
      | inl wild ↦ (
        named,
        inr (inr (and_left _ _ wild, ends_with-append n (tail_text r) (and_right _ _ wild))),
      )
      | inr plain ↦ elim (Bool-cases (n == r)) [
        | inl same ↦ (named, inl ((eq_iff n r).0 same))
        | inr other ↦ (named, inr (inl (ends_with-append n ("." <> r) (ground arith))))
      ]
    ]

first_match_none :
    (p : String → Bool) (rules : List String)
    → (deny_matched (first_match p rules) ≡ ok tt) ↔ (any p rules ≡ false)
first_match_none p [] = ground arith
first_match_none p (r ∷ rules) = ground (arith, first_match_none p rules)

any_some : (p : String → Bool) (rules : List String) → any p rules ≡ true → is_empty rules ≡ false
any_some p [] h = cc
any_some p (r ∷ rules) h = refl

module _ ⦃net : Network⦄ where
  -- The three loopback names, where they are local addresses.
  abbrev pub IsLoopback : String → Type 0
  IsLoopback host =
      (is_private_or_loopback host ≡ true)
      × (member host ("127.0.0.1" ∷ "::1" ∷ "localhost" ∷ []) ≡ true)

  -- A destination that is in bounds: private only if that is allowed, on no rule of the denylist,
  -- on a rule of the allowlist.
  pub record IsListed (cfg : EgressConfig) (url host : String) : Type 0 where
    pub private_allowed : is_private_or_loopback host ≡ true → cfg.allow_private_networks ≡ true
    pub not_denied : any (rule_matches url host) cfg.denylist ≡ false
    pub listed : any (rule_matches url host) cfg.allowlist ≡ true

  -- the checks of a host that is not one of the three names
  abbrev check_listed : EgressConfig → String → String → Result (Unit {0})
  check_listed cfg url host = do
    raise_if (is_private_or_loopback host && not cfg.allow_private_networks) (
        policy_error
          "egress denied: private network destinations require allow_private_networks=true")
    deny_matched (first_match (rule_matches url host) cfg.denylist)
    raise_if (is_empty cfg.allowlist) (policy_error "egress denied: no allowlist configured")
    raise_if (not (any (rule_matches url host) cfg.allowlist))
        (policy_error "egress denied: destination not in allowlist")

  IsListed-of :
      (cfg : EgressConfig) (url host : String)
      → check_listed cfg url host ≡ ok tt
      → IsListed cfg url host
  IsListed-of cfg url host h = record {
    private_allowed = λ p. ground arith;
    not_denied = (first_match_none (rule_matches url host) cfg.denylist).0 (ground arith);
    listed = ground arith;
  }

  of_listed :
      (cfg : EgressConfig) (url host : String)
      → IsListed cfg url host
      → check_listed cfg url host ≡ ok tt
  of_listed cfg url host d =
      let clear = (first_match_none (rule_matches url host) cfg.denylist).1 d.not_denied in
      let some_rule = any_some (rule_matches url host) cfg.allowlist d.listed in
      ground (arith, clear, some_rule, d.listed, d.private_allowed)

  check_host_iff :
      (cfg : EgressConfig) (url host : String)
      → (check_host cfg url host ≡ ok tt) ↔ (IsLoopback host ⊎ IsListed cfg url host)
  unfolding check_host
  check_host_iff cfg url host =
      elim (Bool-cases
        (is_private_or_loopback host && member host ("127.0.0.1" ∷ "::1" ∷ "localhost" ∷ []))) [
          | inl loop ↦ (λ h. inl (and_left _ _ loop, and_right _ _ loop), λ h. rw loop refl)
          | inr remote ↦ (
            λ h. inr (IsListed-of cfg url host (rw remote at h)),
            λ h. elim h [
              | inl (local, name) ↦ absurd (ground arith)
              | inr d ↦ rw remote (of_listed cfg url host d)
            ],
          )
        ]

  -- A URL that may be requested.
  pub record MayRequest (cfg : EgressConfig) (url : String) : Type 0 where
    pub parts : UrlParts
    pub parsed : net.urlparse url ≡ ok parts
    pub scheme : (parts.scheme ≡ "http") ⊎ (parts.scheme ≡ "https")
    pub named : parts.hostname ≢ ""
    pub allowed : IsLoopback parts.hostname ⊎ IsListed cfg url parts.hostname

  -- A URL passes exactly when it parses, is http or https, names a host, and that host is one of
  -- the three local names, or is in bounds: private only if that is allowed, on no rule of the
  -- denylist, on a rule of the allowlist.
  pub check_url_iff :
      (cfg : EgressConfig) (url : String) → (check_url cfg url ≡ ok tt) ↔ MayRequest cfg url
  unfolding check_url member
  check_url_iff cfg url = (
    λ h.
        let (p, parsed) : (p : UrlParts) × (net.urlparse url ≡ ok p) = ground arith in
        record {
          parts = p;
          parsed = parsed;
          scheme = ground (arith, eq_iff p.scheme "http", eq_iff p.scheme "https");
          named = λ e. ground (arith, eq_iff p.hostname "");
          allowed = (check_host_iff cfg url p.hostname).0 (ground arith);
        },
    λ m.
        let passes = (check_host_iff cfg url m.parts.hostname).1 m.allowed in
        let http = eq_iff m.parts.scheme "http" in
        let https = eq_iff m.parts.scheme "https" in
        rw m.parsed
          (ground (arith, passes, m.scheme, http, https, m.named, eq_iff m.parts.hostname "")),
  )

  -- Another rule on the denylist never lets more through.
  pub check_url_deny_more :
      (cfg : EgressConfig) (rule url : String)
      → check_url (record cfg { denylist = rule ∷ cfg.denylist }) url ≡ ok tt
      → check_url cfg url ≡ ok tt
  check_url_deny_more cfg rule url h =
      let m = (check_url_iff (record cfg { denylist = rule ∷ cfg.denylist }) url).0 h in
      (check_url_iff cfg url).1 (record {
        parts = m.parts;
        parsed = m.parsed;
        scheme = m.scheme;
        named = m.named;
        allowed = elim m.allowed [
          | inl local ↦ inl local
          | inr d ↦ inr (record {
            private_allowed = d.private_allowed;
            not_denied = ground (arith, d.not_denied);
            listed = d.listed;
          })
        ];
      })

module _ ⦃net : Network⦄ (mode : String) (rules : List String) (url : String) (p : UrlParts) where
  network_step :
      net.urlparse url ≡ ok p
      → (check_mode mode rules url ≡ ok tt)
        ↔ ((mode ≡ "allowlist") × (any (rule_matches url p.hostname) rules ≡ true))
  unfolding check_mode
  network_step parsed =
      let filled = any_some (rule_matches url p.hostname) rules in
      (
        λ h. (ground (arith, parsed, eq_iff mode "allowlist"), ground (arith, parsed)),
        λ (listed, found). rw (listed, filled found, parsed, found) refl,
      )

module _ ⦃py : Python⦄ ⦃net : Network⦄ where
  -- A capability may call a URL that parses exactly when its `permissions.network` is `allowlist`
  -- and a rule of its `network_allowlist` matches the URL.
  pub enforce_manifest_network_iff :
      (m : Fields) (url : String) (p : UrlParts)
      → net.urlparse url ≡ ok p
      → (enforce_manifest_network m url ≡ ok tt) ↔ (
          (network_mode (get "network" (dict_or_empty (get "permissions" m))) ≡ "allowlist")
          × (any (rule_matches url p.hostname) (
                rule_texts
                  (list_or_empty (get "network_allowlist" (dict_or_empty (get "permissions" m)))))
              ≡ true))
  unfolding enforce_manifest_network
  enforce_manifest_network_iff m url p parsed =
      let perms = dict_or_empty (get "permissions" m) in
      let mode = network_mode (get "network" perms) in
      let rules = rule_texts (list_or_empty (get "network_allowlist" perms)) in
      network_step mode rules url p parsed
