-- ===== src/Oauth/Enabled.antt =====
-- What src/oauth.py has done where it reports that a connector is enabled.
use unison_capabilities.Base.{
  String, ◌≡◌, refl, sym, subst, ap, ◌∙◌, true, Bool, Option, none, some, List, [], ◌∷◌, ◌++◌, any,
  upper, keep_if, arith,
}
use unison_capabilities.Base.Dict
use unison_capabilities.Base.Dict.{Dict}
use unison_capabilities.Value.{
  Value, Fields, obj, arr, nil, str, bool, get, put, get-put, items, of_list, list_or_empty,
  entries-of_entries, to_text, field, end, Python,
}
use unison_capabilities.Value.Compare.{iterate}
use unison_capabilities.Error.{Result, ok, bind-eq-ok}
use unison_capabilities.Exec.{Exec}
use unison_capabilities.Exec.Returns.{returned, returned-lift, returned-reads}
use unison_capabilities.Schema.{Validator}
use unison_capabilities.Egress.{Network}
use unison_capabilities.Discovery.{Hashing}
use unison_capabilities.Policy.{is_oauth_secret}
use unison_capabilities.Store.{CapabilityStore, File, merged_catalog, upsert_local}
use unison_capabilities.Secrets.{Cipher, put_secret, delete_secret}
use unison_capabilities.Oauth.{
  OauthManager, Onboarding, on_store, on_secrets, or_value, sessions_in, write_sessions,
  token_endpoint,
}
use unison_capabilities.Oauth.Complete.{
  Session, Token, pending, granted, live_session, ask_token, token_handle_of, token_reference,
  is_other_secret, enabled_manifest, manifest_to_enable, enable_connector, close_session, on_token,
  enabled_reply, complete,
}
use unison_capabilities.Oauth.Answers.{Answered, IsLive, live_session-IsLive, ask_token_lem}
use unison_capabilities.Oauth.Steps.{ask_token-Within, merged_catalog_state}

items-of_list : (vs : List Value) → items (of_list vs) ≡ vs
items-of_list [] = refl
items-of_list (v ∷ vs) = λ i. v ∷ items-of_list vs i

any-append :
    (p : Value → Bool) (vs : List Value) (v : Value) → p v ≡ true → any p (vs ++ v ∷ []) ≡ true
any-append p [] v h = rw h refl
any-append p (w ∷ vs) v h = ground (arith, any-append p vs v h)

module _ ⦃py : Python⦄ where
  -- A manifest that was enabled with the token under a handle: it is enabled, the last of its
  -- secrets refers to that handle, and the policy finds an OAuth secret that is a reference.
  pub record IsOnboarded (handle : String) (m : Fields) : Type 0 where
    pub others : List Value
    pub secrets :
        get "secrets" m
        ≡ arr (
            of_list (
              others
              ++ obj (field "name" (str "OAUTH_REFRESH_TOKEN") (field "ref" (str handle) end))
                ∷ []))
    pub enabled : get "enabled" m ≡ bool true
    pub onboarded : any is_oauth_secret (list_or_empty (get "secrets" m)) ≡ true

  reference-is_oauth_secret : (handle : String) → is_oauth_secret (token_reference handle) ≡ true
  unfolding is_oauth_secret get Dict.lookup upper
  reference-is_oauth_secret handle = refl

  pub enabled_manifest-IsOnboarded :
      (handle : String) (m m' : Fields) → enabled_manifest handle m ≡ ok m' → IsOnboarded handle m'
  unfolding enabled_manifest
  enabled_manifest-IsOnboarded handle m m' h =
      let (secrets, got, made) = bind-eq-ok (iterate (or_value (get "secrets" m) (arr nil))) _ h in
      let all = keep_if is_other_secret secrets ++ token_reference handle ∷ [] in
      let is_m : put "secrets" (arr (of_list all)) (put "enabled" (bool true) m) ≡ m' = cc in
      record {
        others = keep_if is_other_secret secrets;
        secrets = rw (← is_m, get-put) refl;
        enabled = rw (← is_m, get-put, get-put) refl;
        onboarded =
            rw (← is_m, get-put, items-of_list all)
              (any-append is_oauth_secret (keep_if is_other_secret secrets) (token_reference handle)
                (reference-is_oauth_secret handle));
      }

module _ {A : Type 0} (s t : Onboarding) (r : Result A) where
  from_store : (m : Exec CapabilityStore A) → on_store m s ≡ (r, t) → m s.store ≡ (r, t.store)
  from_store m h = λ i. ((h i).0, (h i).1.store)

  from_secrets : (m : Exec File A) → on_secrets m s ≡ (r, t) → t.store ≡ s.store
  from_secrets m h = λ i. (sym h i).1.store

  file_after : (m : Exec File A) → on_secrets m s ≡ (r, t) → m s.secrets ≡ (r, t.secrets)
  file_after m h = λ i. ((h i).0, (h i).1.secrets)

module _ ⦃py : Python⦄ ⦃validator : Validator⦄ ⦃cipher : Cipher⦄ where
  -- The connector that is stored: the old manifest of the merged view, and the new one.
  pub record Stored (session : Session) (handle : String) (s s' : CapabilityStore) : Type 0 where
    pub merged : Dict Fields
    pub old : Fields
    pub manifest : Fields
    pub shown : (merged_catalog s).0 ≡ ok merged
    pub found : Dict.lookup session.capability_id merged ≡ some old
    pub changed : enabled_manifest handle old ≡ ok manifest
    pub onboarded : IsOnboarded handle manifest
    pub stored : upsert_local manifest s ≡ (ok tt, s')

  moved :
      (session : Session) (handle : String) {s s1 t t1 : CapabilityStore}
      → s ≡ s1
      → t ≡ t1
      → Stored session handle s t
      → Stored session handle s1 t1
  moved session handle {s} {s1} {t} {t1} p q stored =
      subst (λ u. Stored session handle u t1) p (subst (λ u. Stored session handle s u) q stored)

  abbrev pub put_token : Value → Value → Session → Exec File (Unit {0})
  put_token principal refresh session =
      put_secret (token_handle_of session.provider principal session.capability_id)
        (obj (field "refresh_token" (str (to_text refresh)) end))

  -- The token is put under the handle, and the device code, which is under another, is deleted.
  pub record KeepsToken (session : Session) (handle : String) (refresh : Value) (secrets' : File)
      : Type 0 where
    pub before : File
    pub between : File
    pub put :
        put_secret handle (obj (field "refresh_token" (str (to_text refresh)) end)) before
        ≡ (ok tt, between)
    pub deleted : (delete_secret session.device_handle between).1 ≡ secrets'

  enabled_lookup : (o : Option Fields) (m : Fields) → manifest_to_enable o ≡ ok m → o ≡ some m
  unfolding manifest_to_enable
  enabled_lookup (some (field k v fs)) m h = cc
  enabled_lookup (some end) m h = cc
  enabled_lookup none m h = cc

  enable_connector_lem :
      (principal refresh : Value) (session : Session) (s s' : Onboarding)
      → enable_connector principal session refresh s ≡ (ok tt, s')
      → Stored session
          (token_handle_of session.provider principal session.capability_id)
          s.store
          s'.store
        × (put_token principal refresh session s.secrets ≡ (ok tt, s'.secrets))
  unfolding enable_connector
  enable_connector_lem principal refresh session s s' h =
      let (_, t, put, h1) =
        returned (on_secrets (put_token principal refresh session)) _ s _ s' h in
      let (merged, u, got, h2) = returned (on_store merged_catalog) _ t _ s' h1 in
      let (old, there, h3) =
        returned-lift (manifest_to_enable (Dict.lookup session.capability_id merged)) _ u _ s' h2 in
      let (manifest, changed, h4) = returned-lift (enabled_manifest _ old) _ u _ s' h3 in
      let same : t.store ≡ s.store =
        from_secrets s t (ok tt) (put_token principal refresh session) put in
      let read = from_store t u (ok merged) merged_catalog got in
      let written = file_after s t (ok tt) (put_token principal refresh session) put in
      let kept : t.secrets ≡ s'.secrets = ap (λ r. r.1.secrets) got ∙ ap (λ r. r.1.secrets) h4 in
      let unchanged : u.store ≡ t.store = ap (λ r. r.1) (sym read) ∙ merged_catalog_state t.store in
      (
        record {
          merged = merged;
          old = old;
          manifest = manifest;
          shown = rw (← same) (ap (λ r. r.0) read);
          found = enabled_lookup _ old there;
          changed = changed;
          onboarded =
              enabled_manifest-IsOnboarded
                (token_handle_of session.provider principal session.capability_id) old manifest
                changed;
          stored = rw (← same, ← unchanged) (from_store u s' (ok tt) (upsert_local manifest) h4);
        },
        written ∙ ap (λ f. (ok tt, f)) kept,
      )

module _ ⦃py : Python⦄ ⦃hash : Hashing⦄ ⦃cipher : Cipher⦄ where
  record Closed (sid : String) (session : Session) (sessions : Dict Value) (v : Value)
      (s s' : Onboarding) : Type 0 where
    sessions_left : sessions_in s'.sessions ≡ ok (Dict.erase sid sessions)
    store_kept : s'.store ≡ s.store
    deleted : (delete_secret session.device_handle s.secrets).1 ≡ s'.secrets
    reply : enabled_reply session.capability_id ≡ v

  close_session_lem :
      (manager : OauthManager) (sid : String) (principal : Value) (session : Session)
      (sessions : Dict Value) (v : Value) (s s' : Onboarding)
      → close_session manager sid principal session sessions s ≡ (ok v, s')
      → Closed sid session sessions v s s'
  unfolding close_session write_sessions sessions_in
  close_session_lem manager sid principal session sessions v s s' h =
      let (_, t, deleted, rest) =
        returned (on_secrets (delete_secret session.device_handle)) _ s _ s' h in
      let kept : t.store ≡ s.store =
        from_secrets s t _ (delete_secret session.device_handle) deleted in
      record {
        sessions_left =
            ap (λ r. sessions_in r.1.sessions) (sym rest) ∙ ap ok (entries-of_entries _);
        store_kept = ap (λ r. r.1.store) (sym rest) ∙ kept;
        deleted =
            (λ i. (file_after s t _ (delete_secret session.device_handle) deleted i).1)
            ∙ ap (λ r. r.1.secrets) rest;
        reply = cc;
      }

module _ ⦃py : Python⦄ ⦃validator : Validator⦄ ⦃hash : Hashing⦄ ⦃net : Network⦄ ⦃cipher : Cipher⦄
    (manager : OauthManager) (sid : String) (principal : Value) where
  -- A call that reports `id` as enabled, from `s` to `s'`.
  pub record WasEnabled (id : String) (s s' : Onboarding) : Type 0 where
    pub sessions : Dict Value
    pub sessions_read : sessions_in s.sessions ≡ ok sessions
    pub session : Session
    pub live : IsLive manager.clock (Dict.lookup sid sessions) session
    pub answer : Fields
    pub answered : Answered manager (token_endpoint session.provider) answer
    pub token :
        KeepsToken session
          (token_handle_of session.provider principal session.capability_id)
          (get "refresh_token" answer)
          s'.secrets
    pub same_id : session.capability_id ≡ id
    pub connector :
        Stored session
          (token_handle_of session.provider principal session.capability_id)
          s.store
          s'.store
    pub closed : sessions_in s'.sessions ≡ ok (Dict.erase sid sessions)

  granted_token :
      (id : String) (session : Session) (sessions : Dict Value) (token : Token) (t s' : Onboarding)
      → on_token manager sid principal session sessions token t ≡ (ok (enabled_reply id), s')
      → (refresh : Value) × (u : Onboarding) × (token ≡ granted refresh)
        × (enable_connector principal session refresh t ≡ (ok tt, u))
        × (close_session manager sid principal session sessions u ≡ (ok (enabled_reply id), s'))
  unfolding on_token
  granted_token id session sessions (pending e n) t s' h = cc
  granted_token id session sessions (granted refresh) t s' h =
      let (done, u, h1, h2) = returned (enable_connector principal session refresh) _ t _ s' h in
      (refresh, u, refl, h1, h2)

  -- A call that reports a capability as enabled was for a session that was there and whose time of
  -- expiry was not past. It put the refresh token that the provider's token endpoint answered under
  -- the token's handle, and then deleted the device code of the session; it stored the capability's
  -- manifest of the merged view, enabled and with a secret that is a reference to that handle,
  -- changed nothing else in the store, and dropped the session.
  pub complete_enabled :
      (id : String) (s s' : Onboarding)
      → complete manager sid principal s ≡ (ok (enabled_reply id), s')
      → WasEnabled id s s'
  unfolding complete
  complete_enabled id s s' h =
      let (sessions, read, h1) = returned-reads (λ t. sessions_in t.sessions) _ s _ s' h in
      let (session, live, h2) =
        returned-lift (live_session manager.clock (Dict.lookup sid sessions)) _ s _ s' h1 in
      let (token, t, asked, h3) = returned (ask_token manager principal session) _ s _ s' h2 in
      let kept : t.store ≡ s.store =
        ap (λ r. r.1.store) (sym asked) ∙ (ask_token-Within manager principal session).at s in
      let (refresh, u, is_granted, enabled, closed) =
        granted_token id session sessions token t s' h3 in
      let at_end =
        close_session_lem manager sid principal session sessions (enabled_reply id) u s' closed in
      let (connector, put) = enable_connector_lem principal refresh session t u enabled in
      let (answer, answered, same) =
        ask_token_lem manager principal refresh session s t
          (asked ∙ ap (λ k. (ok k, t)) is_granted) in
      record {
        sessions = sessions;
        sessions_read = read;
        session = session;
        live = live_session-IsLive manager.clock (Dict.lookup sid sessions) session live;
        answer = answer;
        answered = answered;
        token = rw same (record {
          before = t.secrets;
          between = u.secrets;
          put = put;
          deleted = at_end.deleted;
        });
        same_id = cc (at_end.reply);
        connector = moved session _ kept (sym at_end.store_kept) connector;
        closed = at_end.sessions_left;
      }
