-- ===== src/Targets/Binding.antt =====
-- When a binding of src/semantic_targets.py authorizes.
use Prim.Native.Nat.{ℕ, ◌<◌, ◌+◌}
use unison_capabilities.Base.{String, ◌≡◌, refl, ◌↔◌, arith, eq_iff}
use unison_capabilities.Error.{ok}
use unison_capabilities.Targets.{Signing, TargetBinding, payload_of, bind, authorize}

-- A binding that is signed, unexpired, and for the person, the capability and the state.
pub record Authorizes (signing : Signing) (now : ℕ) (b : TargetBinding)
    (capability person_id state : String) : Type 0 where
  pub signed : b.authority_token ≡ signing.hexdigest (payload_of b)
  pub unexpired : now < b.expires_at
  pub person : b.person_id ≡ person_id
  pub cap : b.capability ≡ capability
  pub version : b.state_version ≡ state

module _ (signing : Signing) (now : ℕ) where
  -- A binding is let through exactly under these conditions.
  pub authorize_iff :
      (b : TargetBinding) (capability person_id state : String)
      → (authorize signing now b capability person_id state ≡ ok tt)
        ↔ Authorizes signing now b capability person_id state
  unfolding authorize
  authorize_iff b capability person_id state =
      let token = eq_iff b.authority_token (signing.hexdigest (payload_of b)) in
      let person = eq_iff b.person_id person_id in
      let cap = eq_iff b.capability capability in
      let version = eq_iff b.state_version state in
      (
        λ h. record {
          signed = ground (arith, token);
          unexpired = ground arith;
          person = ground (arith, person);
          cap = ground (arith, cap);
          version = ground (arith, version);
        },
        λ a.
            ground (
              arith, token, person, cap, version, a.signed, a.unexpired, a.person, a.cap, a.version,
            ),
      )

-- A binding authorizes its own capability, person and state until its lifetime is over, and from
-- then on nothing.
pub authorize-bind :
    (signing : Signing) (capability target person state : String) (made now ttl : ℕ)
    → (authorize signing now
          (bind signing made capability target person state ttl)
          capability
          person
          state
        ≡ ok tt)
      ↔ (now < made + ttl)
unfolding bind
authorize-bind signing capability target person state made now ttl =
    let b = bind signing made capability target person state ttl in
    let (sound, complete) = authorize_iff signing now b capability person state in
    (
      λ h. (sound h).unexpired,
      λ h.
          complete
            (record { signed = refl; unexpired = h; person = refl; cap = refl; version = refl }),
    )
