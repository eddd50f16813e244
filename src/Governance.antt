-- ===== src/Governance.antt =====
-- src/governance.py: the governance of a manifest, the authority of a run, and the replay guard.
pub mod Rules
pub mod Replay
use unison_capabilities.Base.{
  ℕ, String, ◌<>◌, Bool, true, false, not, ◌&&◌, ◌||◌, Option, none, some, List, [], ◌∷◌, ◌++◌,
  ◌==◌, is_empty, leb, member, if◌then◌else◌,
}
use unison_capabilities.Value.{
  Number, Value, Fields, Python, obj, get, has, as_dict, is_text, truthy, to_float, at_most,
  exceeds, dict_or_empty, str,
}
use unison_capabilities.Value.Compare.{in_set, intersects, contained}
use unison_capabilities.Error.{Result, ok, err, policy_error, python_error, ◌>>=◌, ◌>>◌, raise_if}

abbrev pub governance_v1 : String
governance_v1 = "unison.capability-governance.v1"

-- In the order of `sorted`.
abbrev pub required_manifest_fields : List String
required_manifest_fields =
    "accessibility" ∷ "actions" ∷ "audit" ∷ "confirmation" ∷ "cost_ceiling" ∷ "data_read"
    ∷ "data_write" ∷ "devices" ∷ "egress" ∷ "execution_location" ∷ "filesystem"
    ∷ "recipient_classes" ∷ "resource_limits" ∷ "retention" ∷ "reversible" ∷ "revocation_id"
    ∷ "risk" ∷ "signature" ∷ "timeout_seconds" ∷ []

-- In the order of `sorted`.
abbrev pub required_authority : List String
required_authority =
    "action" ∷ "assistant_id" ∷ "decision_id" ∷ "expires_at" ∷ "grant_id" ∷ "nonce" ∷ "outcome"
    ∷ "principal_id" ∷ []

abbrev pub forbidden : List String
forbidden = "*" ∷ "/" ∷ "/**" ∷ "0.0.0.0/0" ∷ "::/0" ∷ []

-- the keys that do not pass the test
abbrev pub missing_keys : (String → Bool) → List String → List String
missing_keys present [] = []
missing_keys present (k ∷ ks) =
    let rest = missing_keys present ks in if present k then rest else k ∷ rest

-- `", ".join(names)`
abbrev pub join : List String → String
join [] = ""
join (k ∷ []) = k
join (k ∷ ks) = k <> ", " <> join ks

-- `if xs: raise`
abbrev pub raise_missing : String → List String → Result (Unit {0})
raise_missing text [] = ok tt
raise_missing text ks = err (policy_error (text <> join ks))

-- `if value not in names: raise`
abbrev pub require_in : Value → List String → String → Result (Unit {0})
require_in v names text = do found ← in_set v names; raise_if (not found) (policy_error text)

-- the early `raise` on missing names, listed in the message
unfoldable pub require_all : (String → Bool) → List String → String → Result (Unit {0})
require_all present ks text = raise_missing text (missing_keys present ks)

unfoldable pub governance_of : Fields → Result Fields
governance_of manifest =
    if is_text governance_v1 (get "governance_version" manifest)
    then elim (as_dict (get "governance" manifest)) [
      | some governance ↦ ok governance
      | none ↦ err (policy_error "legacy or unknown capability governance is disabled")
    ]
    else err (policy_error "legacy or unknown capability governance is disabled")

-- `forbidden.intersection(filesystem) or forbidden.intersection(egress)`
abbrev pub too_broad : Fields → Result Bool
too_broad governance = do
  files ← intersects forbidden (get "filesystem" governance)
  if files then ok true else intersects forbidden (get "egress" governance)

-- `revoked and revocation_id in revoked`
unfoldable pub is_revoked : List String → Value → Result Bool
unfolding in_set
is_revoked [] v = ok false
is_revoked revoked v = in_set v revoked

module _ ⦃py : Python⦄ where
  unfoldable pub check_bounds : Fields → Result (Unit {0})
  check_bounds governance = do
    require_in (get "execution_location" governance) ("device" ∷ "sandboxed-container" ∷ [])
        "unknown execution location"
    require_in (get "risk" governance) ("low" ∷ "medium" ∷ "high" ∷ "critical" ∷ [])
        "unknown capability risk"
    timeout ← to_float (get "timeout_seconds" governance)
    raise_if (at_most timeout 0 || exceeds timeout 300)
        (policy_error "capability timeout is outside the bounded range")
    broad ← too_broad governance
    raise_if broad (policy_error "broad filesystem or egress authority is prohibited")
    raise_if
        (not (truthy (get "signature" governance)) || not (truthy (get "revocation_id" governance)))
        (policy_error "signature and revocation identity are required")

  unfoldable pub validate_governance_manifest : Fields → Result Fields
  validate_governance_manifest manifest = do
    governance ← governance_of manifest
    require_all (λ k. has k governance) required_manifest_fields
        "incomplete capability governance: "
    check_bounds governance
    ok manifest

  -- `datetime.fromisoformat(v)`
  unfoldable pub from_isoformat : Value → Result ℕ
  from_isoformat (str s) = py.instant_of s
  from_isoformat _ = err (python_error "TypeError")

  -- `now` is the clock, read once; with no set of revoked identities `revoked` is empty.
  unfoldable pub check_authority : ℕ → List String → Fields → Fields → Result (Unit {0})
  check_authority now revoked governance authority = do
    raise_if (not (is_text "allow" (get "outcome" authority)))
        (policy_error "trust decision does not allow execution")
    declared ← contained (get "action" authority) (get "actions" governance)
    raise_if (not declared) (policy_error "manifest does not declare the requested action")
    expires ← from_isoformat (get "expires_at" authority)
    raise_if (leb expires now) (policy_error "execution authority expired")
    gone ← is_revoked revoked (get "revocation_id" governance)
    raise_if gone (policy_error "capability is revoked")

  unfoldable pub authorize_execution : ℕ → List String → Fields → Fields → Result (Unit {0})
  authorize_execution now revoked manifest authority = do
    _ ← validate_governance_manifest manifest
    let governance = dict_or_empty (get "governance" manifest)
    require_all (λ k. truthy (get k authority)) required_authority
        "incomplete execution authority: "
    check_authority now revoked governance authority

-- The nonces that were consumed.
pub record ReplayGuard : Type 0 where
  pub seen : List String

abbrev pub fresh_guard : ReplayGuard
fresh_guard = record { seen = [] }

-- The guard after the call comes back beside the result.
unfoldable pub consume : String → ReplayGuard → Result (Unit {0}) × ReplayGuard
consume nonce guard =
    if member nonce guard.seen
    then (err (policy_error "execution authority replayed"), guard)
    else (ok tt, record guard { seen = nonce ∷ guard.seen })
