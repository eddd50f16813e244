-- ===== src/Egress.antt =====
-- src/egress.py: which outgoing requests are allowed. `urllib.parse.urlparse` and the `ipaddress`
-- module are parameters.
pub mod Rules
use unison_capabilities.Base.{
  String, ◌<>◌, Bool, true, false, not, ◌&&◌, ◌||◌, Option, none, some, List, [], ◌∷◌, ◌==◌, any,
  is_empty, strip, lower, starts_with, ends_with, has_text, tail_text, member, if◌then◌else◌,
}
use unison_capabilities.Value.{
  Value, Fields, Python, arr, items, get, dict_or_empty, list_or_empty, text_or_empty, to_text,
  truthy,
}
use unison_capabilities.Error.{Result, ok, err, policy_error, ◌>>=◌, ◌>>◌, raise_if}

-- `parsed.scheme` and `parsed.hostname or ""`
pub record UrlParts : Type 0 where
  pub scheme : String
  pub hostname : String

-- The three flags of an address that the code reads.
pub record AddressFlags : Type 0 where
  pub is_loopback : Bool
  pub is_private : Bool
  pub is_link_local : Bool

pub record Network : Type 0 where
  pub urlparse : String → Result UrlParts
  -- `none` where `ipaddress.ip_address` raises `ValueError`
  pub ip_address : String → Option AddressFlags

pub record EgressConfig : Type 0 where
  pub allowlist : List String
  pub denylist : List String
  pub allow_private_networks : Bool

abbrev is_local_address : Option AddressFlags → Bool
is_local_address none = false
is_local_address (some ip) = ip.is_loopback || ip.is_private || ip.is_link_local

unfoldable pub host_matches : String → String → Bool
host_matches given_rule given_host =
    let rule = lower (strip given_rule) in
    let host = lower (strip given_host) in
    if rule == "" || host == ""
    then false
    else if starts_with rule "*." && ends_with host (tail_text rule)
    then true
    else if host == rule
    then true
    else ends_with host ("." <> rule)

unfoldable pub url_prefix_matches : String → String → Bool
url_prefix_matches prefix url = starts_with (lower url) (lower (strip prefix))

-- the two tests of one rule in the loops over a list of rules
unfoldable pub rule_matches : String → String → String → Bool
rule_matches url host rule =
    (has_text rule "://" && url_prefix_matches rule url)
    || (not (has_text rule "://") && host_matches rule host)

-- the rule at which the loop over the denylist raises
abbrev pub first_match : (String → Bool) → List String → Option String
first_match p [] = none
first_match p (rule ∷ rules) = let rest = first_match p rules in if p rule then some rule else rest

abbrev pub deny_matched : Option String → Result (Unit {0})
deny_matched none = ok tt
deny_matched (some rule) = err (policy_error ("egress denied by denylist: " <> rule))

module _ ⦃net : Network⦄ where
  unfoldable pub is_private_or_loopback : String → Bool
  is_private_or_loopback host = host == "localhost" || is_local_address (net.ip_address host)

  unfoldable pub check_host : EgressConfig → String → String → Result (Unit {0})
  check_host cfg url host =
      if is_private_or_loopback host && member host ("127.0.0.1" ∷ "::1" ∷ "localhost" ∷ [])
      then ok tt
      else do
        raise_if (is_private_or_loopback host && not cfg.allow_private_networks) (
            policy_error
              "egress denied: private network destinations require allow_private_networks=true")
        deny_matched (first_match (rule_matches url host) cfg.denylist)
        raise_if (is_empty cfg.allowlist) (policy_error "egress denied: no allowlist configured")
        raise_if (not (any (rule_matches url host) cfg.allowlist))
            (policy_error "egress denied: destination not in allowlist")

  unfoldable pub check_url : EgressConfig → String → Result (Unit {0})
  check_url cfg url = do
    parsed ← net.urlparse url
    raise_if (not (member parsed.scheme ("http" ∷ "https" ∷ [])))
        (policy_error ("egress denied: unsupported scheme: " <> parsed.scheme))
    raise_if (parsed.hostname == "") (policy_error "egress denied: missing hostname")
    check_host cfg url parsed.hostname

  -- `send` is the HTTP client: what it returns or raises for a request that was let through.
  unfoldable pub request : {A : Type 0} → EgressConfig → (String → Result A) → String → Result A
  request cfg send url = check_url cfg url >> send url

  -- the checks of `enforce_manifest_network` once the permissions are read
  unfoldable pub check_mode : String → List String → String → Result (Unit {0})
  check_mode mode allow url = do
    raise_if (mode == "deny") (policy_error "network denied by capability permissions")
    raise_if (not (mode == "allowlist")) (policy_error ("invalid permissions.network: " <> mode))
    raise_if (is_empty allow)
        (policy_error "network allowlist required when permissions.network=allowlist")
    parsed ← net.urlparse url
    raise_if (not (any (rule_matches url parsed.hostname) allow))
        (policy_error "egress denied: destination not permitted by capability network_allowlist")

module _ ⦃py : Python⦄ where
  abbrev pub rule_texts : List Value → List String
  rule_texts [] = []
  rule_texts (v ∷ vs) = to_text v ∷ rule_texts vs

  -- `str(perms.get("network") or "deny")`
  abbrev pub network_mode : Value → String
  network_mode v = if truthy v then to_text v else "deny"

  unfoldable pub enforce_manifest_network : ⦃net : Network⦄ → Fields → String → Result (Unit {0})
  enforce_manifest_network manifest url =
      let perms = dict_or_empty (get "permissions" manifest) in
      check_mode (network_mode (get "network" perms))
        (rule_texts (list_or_empty (get "network_allowlist" perms))) url
