-- ===== src/Oauth/Steps.antt =====
-- The parts of src/oauth.py that leave the store as it is.
use unison_capabilities.Base.{String, ◌≡◌, refl, ◌∙◌, arith}
use unison_capabilities.Base.Dict.{Dict}
use unison_capabilities.Value.{Value, Python}
use unison_capabilities.Schema.{Validator}
use unison_capabilities.Egress.{Network}
use unison_capabilities.Discovery.{Hashing}
use unison_capabilities.Exec.{Exec}
use unison_capabilities.Exec.Within.{Preorder, Within, within_rules}
use unison_capabilities.Store.{CapabilityStore, File, merged_catalog}
use unison_capabilities.Secrets.{Cipher}
use unison_capabilities.Oauth.{
  OauthManager, Onboarding, DeviceCode, on_store, on_secrets, write_sessions,
}
use unison_capabilities.Oauth.Start.{check_start, ask_device, open_session, start}
use unison_capabilities.Oauth.Complete.{Session, ask_token}

abbrev pub SameStore : Onboarding → Onboarding → Type 0
SameStore s t = t.store ≡ s.store

pub SameStore-preorder : Preorder SameStore
SameStore-preorder = record { reflexive = λ s. refl; transitive = λ s t u p q. q ∙ p }

secrets-Within : {A : Type 0} (m : Exec File A) → Within SameStore (on_secrets m)
secrets-Within m = record { at = λ s. refl }

write_sessions-Within : (d : Dict Value) → Within SameStore (write_sessions d)
unfolding write_sessions
write_sessions-Within d = record { at = λ s. refl }

module _ ⦃py : Python⦄ ⦃validator : Validator⦄ where
  pub merged_catalog_state : (s : CapabilityStore) → (merged_catalog s).1 ≡ s
  unfolding merged_catalog
  merged_catalog_state s = ground arith

  merged-Within : Within SameStore (on_store merged_catalog)
  merged-Within = record { at = λ s. merged_catalog_state s.store }

  check_start-Within :
      (manager : OauthManager) (id : String) → Within SameStore (check_start manager id)
  unfolding check_start
  check_start-Within manager id = search (within_rules, SameStore-preorder, merged-Within) depth 12

module _ ⦃py : Python⦄ ⦃hash : Hashing⦄ ⦃net : Network⦄ where
  ask_device-Within :
      (manager : OauthManager) (id : String) (principal : Value) (c : String × String × String)
      → Within SameStore (ask_device manager id principal c)
  unfolding ask_device
  ask_device-Within manager id principal c = search (within_rules, SameStore-preorder) depth 16

module _ ⦃py : Python⦄ ⦃cipher : Cipher⦄ where
  open_session-Within :
      (manager : OauthManager) (sid id provider : String) (d : DeviceCode)
      → Within SameStore (open_session manager sid id provider d)
  unfolding open_session
  open_session-Within manager sid id provider d =
      search (within_rules, SameStore-preorder, secrets-Within, write_sessions-Within) depth 12

module _ ⦃py : Python⦄ ⦃hash : Hashing⦄ ⦃net : Network⦄ ⦃cipher : Cipher⦄ where
  pub ask_token-Within :
      (manager : OauthManager) (principal : Value) (session : Session)
      → Within SameStore (ask_token manager principal session)
  unfolding ask_token
  ask_token-Within manager principal session =
      search (within_rules, SameStore-preorder, secrets-Within) depth 16

module _ ⦃py : Python⦄ ⦃validator : Validator⦄ ⦃hash : Hashing⦄ ⦃net : Network⦄
    ⦃cipher : Cipher⦄ where
  -- `start` changes neither catalog and no artifact, whatever it returns or raises.
  pub start-Within :
      (manager : OauthManager) (sid id : String) (principal : Value)
      → Within SameStore (start manager sid id principal)
  unfolding start
  start-Within manager sid id principal =
      search
        (
          within_rules, SameStore-preorder, check_start-Within, ask_device-Within,
          open_session-Within,
        )
        depth 12
