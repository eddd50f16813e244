-- ===== src/Targets.antt =====
-- src/semantic_targets.py: the authority of an observed target. `json.dumps` with sorted keys,
-- `.encode` and the HMAC are parameters.
pub mod Binding
use Prim.Native.Nat.{ℕ}
use unison_capabilities.Base.{
  String, ◌<>◌, ◌+◌, Bool, true, false, not, ◌&&◌, ◌||◌, List, [], ◌∷◌, ◌==◌, leb, ltb,
  if◌then◌else◌,
}
use unison_capabilities.Error.{Error, Result, ok, python_error, ◌>>=◌, ◌>>◌, raise_if}

-- The keys and values of the payload, in the order of its keys.
pub record Payload : Type 0 where
  pub capability : String
  pub expires_at : ℕ
  pub person_id : String
  pub state_version : String
  pub target_id : String

-- `hmac.new(secret, json.dumps(payload, …), sha256).hexdigest()`; `secret_length` counts its bytes.
pub record Signing : Type 0 where
  pub secret_length : ℕ
  pub hexdigest : Payload → String

pub record TargetBinding : Type 0 where
  pub capability : String
  pub target_id : String
  pub person_id : String
  pub state_version : String
  pub expires_at : ℕ
  pub authority_token : String

-- `TargetBindingError`, with its message
abbrev pub binding_error : String → Error
binding_error text = python_error ("TargetBindingError: " <> text)

-- `SemanticTargetAuthority.__init__`
unfoldable pub make_authority : Signing → Result Signing
make_authority signing =
    raise_if (ltb signing.secret_length 32) (python_error "ValueError") >> ok signing

-- `_clock` is read as a whole number of seconds, `now`; a lifetime is not negative.
unfoldable pub bind :
    Signing → ℕ → (capability target_id person_id state_version : String) → ℕ → TargetBinding
bind signing now capability target_id person_id state_version ttl_seconds = record {
  capability = capability;
  target_id = target_id;
  person_id = person_id;
  state_version = state_version;
  expires_at = now + ttl_seconds;
  authority_token = signing.hexdigest (record {
    capability = capability;
    expires_at = now + ttl_seconds;
    person_id = person_id;
    state_version = state_version;
    target_id = target_id;
  });
}

abbrev pub payload_of : TargetBinding → Payload
payload_of b = record {
  capability = b.capability;
  expires_at = b.expires_at;
  person_id = b.person_id;
  state_version = b.state_version;
  target_id = b.target_id;
}

unfoldable pub authorize :
    Signing
    → ℕ
    → TargetBinding
    → (capability person_id current_state_version : String) → Result (Unit {0})
authorize signing now b capability person_id current_state_version = do
  raise_if (not (b.authority_token == signing.hexdigest (payload_of b)))
      (binding_error "target binding signature is invalid")
  raise_if (leb b.expires_at now) (binding_error "target binding expired; observe the target again")
  raise_if (not (b.person_id == person_id) || not (b.capability == capability))
      (binding_error "target authority does not match the person or capability")
  raise_if (not (b.state_version == current_state_version))
      (binding_error "target state changed; observe the target again")
