-- ===== src/Oauth/Started.antt =====
-- What a `start` of src/oauth.py leaves for `complete`.
use unison_capabilities.Base.{
  String, ◌≡◌, ◌≢◌, refl, sym, ap, ◌∙◌, true, false, Option, none, some, arith, eq_refl, eq_iff,
}
use unison_capabilities.Base.Dict
use unison_capabilities.Base.Dict.{Dict, lookup-insert}
use unison_capabilities.Value.{
  Value, Fields, end, field, obj, str, num, bool, get, entries-of_entries, text_or_empty, to_float,
  number_truthy, to_text, Python,
}
use unison_capabilities.Error.{value_or, Result, ok}
use unison_capabilities.Exec.{Exec}
use unison_capabilities.Exec.Returns.{returned, returned-lift, returned-reads}
use unison_capabilities.Schema.{Validator}
use unison_capabilities.Egress.{Network}
use unison_capabilities.Discovery.{Hashing}
use unison_capabilities.Store.{CapabilityStore, File, merged_catalog}
use unison_capabilities.Secrets.{Cipher, put_secret}
use unison_capabilities.Oauth.{
  OauthManager, Onboarding, Clock, DeviceCode, on_store, on_secrets, sessions_in, write_sessions,
  startable, device_code_endpoint, provider_for_capability, client_id_of, scopes_for_capability,
}
use unison_capabilities.Oauth.Start.{
  check_start, ask_device, open_session, session_entry, started_reply, device_handle_of, start,
}
use unison_capabilities.Oauth.Complete.{live_session}
use unison_capabilities.Oauth.Answers.{Answered, IsDeviceCode, ask_device_lem}

module _ ⦃py : Python⦄ where
  text-str : (t : String) → text_or_empty (str t) ≡ t
  text-str t = ground (arith, eq_iff t "")

  -- A session that was written is found by `complete` until its end.
  session-live :
      (clock now : Clock) (id provider handle : String) (d : DeviceCode)
      → number_truthy (clock.add clock.time d.expires_in) ≡ true
      → now.is_after now.time (clock.add clock.time d.expires_in) ≡ false
      → live_session now (some (session_entry clock id provider handle d))
        ≡ ok (record {
          capability_id = id;
          provider = provider;
          device_handle = handle;
          interval = num d.interval;
        })
  unfolding live_session to_float get Dict.lookup
  session-live clock now id provider handle d counts early =
      rw (counts, early, text-str id, text-str provider, text-str handle) refl

secrets_of :
    {A : Type 0} (s t : Onboarding) (r : Result A) (m : Exec File A)
    → on_secrets m s ≡ (r, t)
    → m s.secrets ≡ (r, t.secrets)
secrets_of s t r m h = λ i. ((h i).0, (h i).1.secrets)

startable_lem :
    (o : Option Fields) (m : Fields)
    → startable o ≡ ok m
    → (o ≡ some m) × (get "requires_oauth" m ≡ bool true) × (get "enabled" m ≢ bool true)
unfolding startable
startable_lem none m h = cc
startable_lem (some end) m h = cc
startable_lem (some (field k v fs)) m h = (ground arith, ground arith, λ e. ground arith)

module _ ⦃py : Python⦄ ⦃validator : Validator⦄ where
  from_got :
      (s : Onboarding) (merged : Dict Fields) (u : Onboarding)
      → on_store merged_catalog s ≡ (ok merged, u)
      → (merged_catalog s.store).0 ≡ ok merged
  from_got s merged u h = λ i. (h i).0

  -- The capability of a call that may start.
  pub record MayStart (id provider : String) (s : CapabilityStore) : Type 0 where
    pub merged : Dict Fields
    pub manifest : Fields
    pub shown : (merged_catalog s).0 ≡ ok merged
    pub found : Dict.lookup id merged ≡ some manifest
    pub requires : get "requires_oauth" manifest ≡ bool true
    pub disabled : get "enabled" manifest ≢ bool true
    pub connector : provider_for_capability id ≡ ok provider

  check_start_lem :
      (manager : OauthManager) (id : String) (c : String × String × String) (s t : Onboarding)
      → check_start manager id s ≡ (ok c, t)
      → MayStart id c.0 s.store
  unfolding check_start
  check_start_lem manager id c s t h =
      let (merged, u, got, h1) = returned (on_store merged_catalog) _ s c t h in
      let (manifest, may, h2) = returned-lift (startable (Dict.lookup id merged)) _ u c t h1 in
      let (provider, of_id, h3) = returned-lift (provider_for_capability id) _ u c t h2 in
      let (client, of_env, h4) = returned-lift (client_id_of manager.getenv provider) _ u c t h3 in
      let (scopes, known, h5) = returned-lift (scopes_for_capability id provider) _ u c t h4 in
      let (found, requires, disabled) = startable_lem (Dict.lookup id merged) manifest may in
      let same : provider ≡ c.0 = λ i. (value_or c (h5 i).0).0 in
      record {
        merged = merged;
        manifest = manifest;
        shown = from_got s merged u got;
        found = found;
        requires = requires;
        disabled = disabled;
        connector = of_id ∙ ap ok same;
      }

abbrev as_object : Value → Fields
as_object (obj fs) = fs
as_object v = end

module _ ⦃py : Python⦄ ⦃cipher : Cipher⦄ where
  -- What the caller is told of a device code.
  pub record Tells (sid provider : String) (device : DeviceCode) (v : Value) : Type 0 where
    pub reply : Fields
    pub is_reply : v ≡ obj reply
    pub session_id : get "session_id" reply ≡ str sid
    pub connector : get "provider" reply ≡ str provider
    pub user_code : get "user_code" reply ≡ device.user_code
    pub expires_in : get "expires_in" reply ≡ num device.expires_in
    pub interval : get "interval" reply ≡ num device.interval

  tells_lem :
      (sid provider : String) (device : DeviceCode) (v : Value)
      → started_reply sid provider device ≡ v
      → Tells sid provider device v
  unfolding get Dict.lookup
  tells_lem sid provider device v h = record {
    reply = as_object (started_reply sid provider device);
    is_reply = sym h;
    session_id = refl;
    connector = refl;
    user_code = refl;
    expires_in = refl;
    interval = refl;
  }

  -- The session that a start leaves under its id for a device code, and the secret it refers to.
  pub record Opened (manager : OauthManager) (sid id provider : String) (device : DeviceCode)
      (s' : Onboarding) : Type 0 where
    pub sessions : Dict Value
    pub sessions_read : sessions_in s'.sessions ≡ ok sessions
    pub secrets_before : File
    pub secret_put :
        put_secret
          (device_handle_of sid)
          (obj (field "device_code" (str (to_text device.device_code)) end))
          secrets_before
        ≡ (ok tt, s'.secrets)
    pub live :
        (now : Clock)
        → number_truthy (manager.clock.add manager.clock.time device.expires_in) ≡ true
        → now.is_after now.time (manager.clock.add manager.clock.time device.expires_in) ≡ false
        → live_session now (Dict.lookup sid sessions)
          ≡ ok (record {
            capability_id = id;
            provider = provider;
            device_handle = device_handle_of sid;
            interval = num device.interval;
          })

  open_session_lem :
      (manager : OauthManager) (sid id provider : String) (d : DeviceCode) (v : Value)
      (s s' : Onboarding)
      → open_session manager sid id provider d s ≡ (ok v, s')
      → Opened manager sid id provider d s' × Tells sid provider d v
  unfolding open_session write_sessions sessions_in
  open_session_lem manager sid id provider d v s s' h =
      let put =
        put_secret (device_handle_of sid)
          (obj (field "device_code" (str (to_text d.device_code)) end)) in
      let (_, t, stored, h1) = returned (on_secrets put) _ s v s' h in
      let (old, read, h2) = returned-reads (λ u. sessions_in u.sessions) _ t v s' h1 in
      let entry = session_entry manager.clock id provider (device_handle_of sid) d in
      let kept : t.secrets ≡ s'.secrets = ap (λ r. r.1.secrets) h2 in
      (
        record {
          sessions = Dict.insert sid entry old;
          sessions_read =
              ap (λ r. sessions_in r.1.sessions) (sym h2)
              ∙ ap ok (entries-of_entries (Dict.insert sid entry old));
          secrets_before = s.secrets;
          secret_put = secrets_of s t _ put stored ∙ ap (λ f. (ok tt, f)) kept;
          live = λ now counts early.
              rw (lookup-insert sid sid entry old, eq_refl sid)
                (session-live manager.clock now id provider (device_handle_of sid) d counts early);
        },
        tells_lem sid provider d v (λ i. value_or v (h2 i).0),
      )

module _ ⦃py : Python⦄ ⦃validator : Validator⦄ ⦃hash : Hashing⦄ ⦃net : Network⦄
    ⦃cipher : Cipher⦄ where
  -- What a start leaves: an answer of the provider's device endpoint, the session and the secret of
  -- the device code in it, and the reply with its user code.
  pub record IsStarted (manager : OauthManager) (sid id provider : String) (v : Value)
      (s' : Onboarding) : Type 0 where
    pub answer : Fields
    pub device : DeviceCode
    pub answered : Answered manager (device_code_endpoint provider) answer
    pub is_device : IsDeviceCode answer device
    pub opened : Opened manager sid id provider device s'
    pub told : Tells sid provider device v

  -- A `start` that returns was for a capability of the merged view that requires OAuth and is not
  -- enabled. The provider's device endpoint gave it an object; the device code of that is put under
  -- the session's handle, and the session under the fresh id is one that `complete` finds until the
  -- lifetime of that answer, counted from the start, is over. The caller is told its user code.
  pub start-Opened :
      (manager : OauthManager) (sid id : String) (principal v : Value) (s s' : Onboarding)
      → start manager sid id principal s ≡ (ok v, s')
      → (provider : String) × MayStart id provider s.store × IsStarted manager sid id provider v s'
  unfolding start
  start-Opened manager sid id principal v s s' h =
      let (c, t, checked, h1) = returned (check_start manager id) _ s v s' h in
      let (d, u, asked, h2) = returned (ask_device manager id principal c) _ t v s' h1 in
      (
        c.0,
        check_start_lem manager id c s t checked,
        let (answer, answered, is_device) = ask_device_lem manager id principal c t u d asked in
            let (opened, told) = open_session_lem manager sid id c.0 d v u s' h2 in
            record {
              answer = answer;
              device = d;
              answered = answered;
              is_device = is_device;
              opened = opened;
              told = told;
            },
      )
