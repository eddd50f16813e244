-- ===== src/Oauth/Answers.antt =====
-- What src/oauth.py takes from the answers of a provider, and from a stored session.
use unison_capabilities.Base.{
  ◌<◌, String, ◌≡◌, refl, ap, sym, ◌∙◌, inl, inr, Bool, true, false, not, ◌||◌, Option, none, some,
  [], ◌∷◌, member, arith, leb, if◌then◌else◌, Bool-cases,
}
use unison_capabilities.Value.{
  Value, Fields, obj, null, bool, num, str, arr, decimal, Number, get, truthy, text_or_empty,
  to_int, to_float, Python,
}
use unison_capabilities.Error
use unison_capabilities.Error.{Error, run_error, raise_if, value_or, Result, ok, err, bind-eq-ok}
use unison_capabilities.Exec.{lift, ◌>>=◌}
use unison_capabilities.Exec.Returns.{returned, returned-lift}
use unison_capabilities.Egress.{Network, request, check_url}
use unison_capabilities.Discovery.{Hashing}
use unison_capabilities.Secrets.{Cipher, get_secret}
use unison_capabilities.Oauth.{
  int_or, or_value, OauthManager, Onboarding, Post, Answer, Clock, DeviceCode, on_secrets,
  require_https, json_dict, client_id_of, device_code_endpoint, token_endpoint, allowed_event,
  device_code_in,
}
use unison_capabilities.Oauth.Start.{log_event, device_post, read_device, ask_device}
use unison_capabilities.Oauth.Complete.{
  Session, granted, body, error_of, refresh_token_in, live_session, read_token, refused, ask_token,
  device_code_of, token_post,
}

json_dict_lem : (r : Result Value) (d : Fields) → json_dict r ≡ ok d → r ≡ ok (obj d)
json_dict_lem (ok (obj fs)) d h = ap (λ x. ok (obj (value_or d x))) h
json_dict_lem (ok null) d h = cc
json_dict_lem (ok (bool b)) d h = cc
json_dict_lem (ok (num n)) d h = cc
json_dict_lem (ok (str s)) d h = cc
json_dict_lem (ok (arr vs)) d h = cc
json_dict_lem (err e) d h = cc

checked_lem :
    {A : Type 0} (failed : Bool) (e : Error) (x y : A)
    → Error.◌>>◌ (raise_if failed e) (ok x) ≡ ok y
    → (failed ≡ false) × (x ≡ y)
checked_lem true e x y h = cc
checked_lem false e x y h = (refl, λ i. value_or x (h i))

-- The object that a provider answered to a post to the URL.
pub record Answered (manager : OauthManager) (url : Result String) (d : Fields) : Type 0 where
  pub posted : Post
  pub to_url : url ≡ ok posted.url
  pub answer : Answer
  pub sent : manager.send posted ≡ ok answer
  pub json : answer.json ≡ ok (obj d)

module _ ⦃py : Python⦄ where
  -- The device code that an answer holds: every value under its own key, the lifetime 600 and the
  -- interval 5 where the answer has none.
  pub record IsDeviceCode (d : Fields) (device : DeviceCode) : Type 0 where
    pub device_code : device.device_code ≡ get "device_code" d
    pub user_code : device.user_code ≡ get "user_code" d
    pub there : truthy (get "device_code" d) ≡ true
    pub lifetime :
        to_int
          (if truthy (get "expires_in" d) then get "expires_in" d else num (decimal false 600 0))
        ≡ ok device.expires_in
    pub interval :
        to_int (if truthy (get "interval" d) then get "interval" d else num (decimal false 5 0))
        ≡ ok device.interval

  device_code_in_lem :
      (d : Fields) (device : DeviceCode) → device_code_in d ≡ ok device → IsDeviceCode d device
  unfolding device_code_in int_or
  device_code_in_lem d device h =
      let (expires_in, lasts, h1) = bind-eq-ok (int_or 600 (get "expires_in" d)) _ h in
      let (interval, waits, h2) = bind-eq-ok (int_or 5 (get "interval" d)) _ h1 in
      let uri = or_value (get "verification_uri" d) (get "verification_url" d) in
      let missing =
        not (truthy (get "device_code" d))
        || not (truthy (get "user_code" d))
        || not (truthy uri) in
      let read : DeviceCode = record {
        device_code = get "device_code" d;
        user_code = get "user_code" d;
        verification_uri = uri;
        expires_in = expires_in;
        interval = interval;
        message = get "message" d;
      } in
      let (complete, same) =
        checked_lem missing (run_error "oauth device flow response missing required fields") read
          device h2 in
      record {
        device_code = λ i. (sym same i).device_code;
        user_code = λ i. (sym same i).user_code;
        there = ground arith;
        lifetime = lasts ∙ (λ i. ok (same i).expires_in);
        interval = waits ∙ (λ i. ok (same i).interval);
      }

  -- The session that an entry holds, which has not expired.
  pub record IsLive (clock : Clock) (found : Option Value) (session : Session) : Type 0 where
    pub entry : Fields
    pub there : found ≡ some (obj entry)
    pub ends : Number
    pub end_read :
        to_float (
          if truthy (get "expires_at" entry)
          then get "expires_at" entry
          else num (decimal false 0 0))
        ≡ ok ends
    pub not_expired : clock.is_after clock.time ends ≡ false
    pub capability_id : session.capability_id ≡ text_or_empty (get "capability_id" entry)
    pub provider : session.provider ≡ text_or_empty (get "provider" entry)
    pub device_handle : session.device_handle ≡ text_or_empty (get "device_code_handle" entry)

  pub live_session-IsLive :
      (clock : Clock) (found : Option Value) (session : Session)
      → live_session clock found ≡ ok session
      → IsLive clock found session
  unfolding live_session
  live_session-IsLive clock (some (obj entry)) session h =
      let (ends, read, h1) = bind-eq-ok (to_float _) _ h in
      elim (Bool-cases (clock.is_after clock.time ends)) [
        | inl after ↦ absurd (cc (rw after at h1))
        | inr before ↦
            let made = rw before at h1 in
            record {
              entry = entry;
              there = refl;
              ends = ends;
              end_read = read;
              not_expired = before;
              capability_id = λ i. (value_or session (sym made i)).capability_id;
              provider = λ i. (value_or session (sym made i)).provider;
              device_handle = λ i. (value_or session (sym made i)).device_handle;
            }
      ]
  live_session-IsLive clock none session h = cc
  live_session-IsLive clock (some null) session h = cc
  live_session-IsLive clock (some (bool b)) session h = cc
  live_session-IsLive clock (some (num n)) session h = cc
  live_session-IsLive clock (some (str s)) session h = cc
  live_session-IsLive clock (some (arr vs)) session h = cc

  refused-granted :
      (interval refresh : Value) (d : Fields) → ¬ (refused interval d ≡ ok (granted refresh))
  unfolding refused
  refused-granted interval refresh d h =
      elim (Bool-cases (member (error_of d) ("authorization_pending" ∷ "slow_down" ∷ []))) [
        | inl waits ↦
            let (n, _, made) = bind-eq-ok (int_or 5 interval) _ (rw waits at h) in cc (made)
        | inr fails ↦ cc (rw fails at h)
      ]

  refresh_lem :
      (refresh : Value) (d : Fields)
      → refresh_token_in d ≡ ok (granted refresh)
      → (get "refresh_token" d ≡ refresh) × (truthy refresh ≡ true)
  refresh_lem refresh d h = elim (Bool-cases (truthy (get "refresh_token" d))) [
    | inl there ↦
        let made : ok (granted (get "refresh_token" d)) ≡ ok (granted refresh) = rw there at h in
        let same : get "refresh_token" d ≡ refresh = cc (made) in (same, cc (there, same))
    | inr missing ↦ cc (rw missing at h)
  ]

  pub read_token_lem :
      (interval refresh : Value) (answer : Answer)
      → read_token interval answer ≡ ok (granted refresh)
      → (d : Fields) × (answer.json ≡ ok (obj d))
        × (answer.status_code < 400)
        × (get "refresh_token" d ≡ refresh)
        × (truthy refresh ≡ true)
  unfolding read_token refused
  read_token_lem interval refresh answer h =
      let (d, is_dict, h1) = bind-eq-ok (json_dict (body answer)) _ h in
      let is_body : body answer ≡ ok (obj d) = json_dict_lem (body answer) d is_dict in
      elim (Bool-cases (leb 400 answer.status_code)) [
        | inl failed ↦ absurd (refused-granted interval refresh d (rw failed at h1))
        | inr early ↦
            let (same, there) = refresh_lem refresh d (rw early at h1) in
            (d, ground (arith, is_body, early), ground (arith, early), same, there)
      ]

module _ ⦃py : Python⦄ ⦃hash : Hashing⦄ ⦃net : Network⦄ (manager : OauthManager) where
  -- A device code that was asked for is the one that the provider's device endpoint answered.
  pub ask_device_lem :
      (id : String) (principal : Value) (c : String × String × String) (s t : Onboarding)
      (device : DeviceCode)
      → ask_device manager id principal c s ≡ (ok device, t)
      → (d : Fields) × Answered manager (device_code_endpoint c.0) d × IsDeviceCode d device
  unfolding ask_device request
  ask_device_lem id principal c s t device h =
      let (device_url, at_url, h1) = returned-lift (device_code_endpoint c.0) _ s device t h in
      let (token_url, _, h2) = returned-lift (token_endpoint c.0) _ s device t h1 in
      let (_, _, h3) = returned-lift (require_https device_url) _ s device t h2 in
      let (_, _, h4) = returned-lift (require_https token_url) _ s device t h3 in
      let post = device_post c.1 c.2 device_url in
      let u = (log_event manager (allowed_event "oauth.start" principal id) s).1 in
      let (answer, got, h5) =
        returned-lift
          (request manager.egress (λ url. manager.send (device_post c.1 c.2 url)) device_url)
          read_device u device t h4 in
      let (_, _, h6) =
        returned-lift answer.raise_for_status
          (λ _. lift (json_dict answer.json) >>= λ d. lift (device_code_in d)) u device t h5 in
      let (d, is_dict, h7) =
        returned-lift (json_dict answer.json) (λ d. lift (device_code_in d)) u device t h6 in
      let (_, _, sent) =
        bind-eq-ok (check_url manager.egress device_url) (λ _. manager.send post) got in
      (
        d,
        record {
          posted = post;
          to_url = at_url;
          answer = answer;
          sent = sent;
          json = json_dict_lem answer.json d is_dict;
        },
        device_code_in_lem d device (λ i. (h7 i).0),
      )

  -- A refresh token that was asked for is the one that the provider's token endpoint answered.
  pub ask_token_lem :
      ⦃cipher : Cipher⦄
      → (principal refresh : Value) (session : Session) (s t : Onboarding)
      → ask_token manager principal session s ≡ (ok (granted refresh), t)
      → (d : Fields) × Answered manager (token_endpoint session.provider) d
        × (get "refresh_token" d ≡ refresh)
  unfolding ask_token request
  ask_token_lem principal refresh session s t h =
      let last = granted refresh in
      let (secret, v, _, h1) =
        returned (on_secrets (get_secret session.device_handle)) _ s last t h in
      let (code, _, h2) = returned-lift (device_code_of secret) _ v last t h1 in
      let (client, _, h3) =
        returned-lift (client_id_of manager.getenv session.provider) _ v last t h2 in
      let (token_url, at_url, h4) = returned-lift (token_endpoint session.provider) _ v last t h3 in
      let (_, _, h5) = returned-lift (require_https token_url) _ v last t h4 in
      let post = token_post manager session.provider client code token_url in
      let u =
        (log_event manager (allowed_event "oauth.complete" principal session.capability_id) v).1 in
      let (answer, got, h6) =
        returned-lift
          (request manager.egress
            (λ url. manager.send (token_post manager session.provider client code url)) token_url)
          (λ answer. lift (read_token session.interval answer)) u last t h5 in
      let (_, _, sent) =
        bind-eq-ok (check_url manager.egress token_url) (λ _. manager.send post) got in
      let (d, json, _, same, _) = read_token_lem session.interval refresh answer (λ i. (h6 i).0) in
      (
        d,
        record { posted = post; to_url = at_url; answer = answer; sent = sent; json = json },
        same,
      )
