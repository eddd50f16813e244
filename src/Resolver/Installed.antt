-- ===== src/Resolver/Installed.antt =====
-- Which manifest `install` of src/resolver.py accepts.
pub mod Effect
use unison_capabilities.Base.{
  String, ◌≡◌, ◌≢◌, refl, ap, ◌∙◌, ◌⊎◌, inl, inr, Bool, true, false, not, ◌&&◌, Option, none, some,
  arith, ◌==◌, eq_iff, if◌then◌else◌, Option-cases,
}
use unison_capabilities.Value.{
  Value, Fields, end, field, obj, str, Python, get, dict_or_empty, is_text,
}
use unison_capabilities.Error.{
  Error, Result, ok, err, install_error, ◌>>=◌, ◌>>◌, raise_if, Result-cases,
}
use unison_capabilities.Exec.{Exec}
use unison_capabilities.Schema.{Validator, validate_manifest, IsValid, validate_manifest_returns}
use unison_capabilities.Egress.{Network, EgressConfig, UrlParts, check_url, request}
use unison_capabilities.Policy.{enforce_install, get_in}
use unison_capabilities.Discovery.{Hashing}
use unison_capabilities.Store.{CapabilityStore, CapabilityRef, Op, upsert_local}
use unison_capabilities.Resolver.{Setup}
use unison_capabilities.Resolver.Accept.{
  accept, candidate_manifest, fetched, remote_url, check_remote, send, expected_digest, digest_of,
  fetch_remote, choose_manifest,
}

module _ ⦃py : Python⦄ ⦃validator : Validator⦄ ⦃hash : Hashing⦄ ⦃net : Network⦄ where
  -- A manifest that was fetched for the candidate's manifest `m`: over https, valid, and of the
  -- digest that `m` pins, if it pins one.
  pub record IsFetched (setup : Setup) (m : Fields) (url : String) (remote : Fields) : Type 0 where
    pub secure : (p : UrlParts) × (net.urlparse url ≡ ok p) × (p.scheme ≡ "https")
    pub answer : send setup url ≡ ok (obj remote)
    pub valid : IsValid remote
    pub pinned : expected_digest m ≢ "" → digest_of remote ≡ expected_digest m

  returned :
      {A : Type 0} (r : Result A) (f : A → Result Fields) {m : Fields}
      → (r >>= f) ≡ ok m
      → (a : A) × (r ≡ ok a)
  returned (ok a) f h = (a, refl)
  returned (err e) f h = cc

  fetched_lem : (r : Result Value) (v : Value) → fetched r ≡ ok v → r ≡ ok v
  fetched_lem (ok w) v h = h
  fetched_lem (err e) v h = cc

  record IsChecked (m : Fields) (v : Value) (remote : Fields) : Type 0 where
    answer : v ≡ obj remote
    valid : IsValid remote
    pinned : expected_digest m ≢ "" → digest_of remote ≡ expected_digest m

  check_remote_lem :
      (m : Fields) (v : Value) (remote : Fields)
      → check_remote m v ≡ ok remote
      → IsChecked m v remote
  unfolding check_remote
  check_remote_lem m (obj w) remote h =
      let same : w ≡ remote = ground arith in
      let (n, valid) : (n : Fields) × (validate_manifest w ≡ ok n) = ground arith in
      let good : IsValid w = rw (validate_manifest_returns w n valid) at valid in
      record {
        answer = ap obj same;
        valid = rw same at good;
        pinned = λ named. rw (← same) (
            ground
              (arith, eq_iff (expected_digest m) "", eq_iff (digest_of w) (expected_digest m)));
      }
  check_remote_lem m _ remote h = cc

  fetch_remote_lem :
      (setup : Setup) (m : Fields) (url : String) (remote : Fields)
      → fetch_remote setup m url ≡ ok remote
      → IsFetched setup m url remote
  unfolding fetch_remote
  fetch_remote_lem setup m url remote h =
      let (p, parsed) : (p : UrlParts) × (net.urlparse url ≡ ok p) = ground arith in
      let (v, got) : (v : Value) × (fetched (send setup url) ≡ ok v) = ground arith in
      let checked = check_remote_lem m v remote (ground arith) in
      record {
        secure = (p, parsed, ground (arith, eq_iff p.scheme "https"));
        answer = fetched_lem (send setup url) v got ∙ ap ok checked.answer;
        valid = checked.valid;
        pinned = checked.pinned;
      }

  -- What is accepted for a candidate: its own manifest is valid and the policy allows it, and what
  -- is installed is that manifest or one fetched for it.
  pub record IsAccepted (setup : Setup) (candidate m : Fields) : Type 0 where
    pub own : Fields
    pub held : get "manifest" candidate ≡ obj own
    pub valid : IsValid own
    pub allowed : enforce_install setup.policy own ≡ ok tt
    pub origin :
        (m ≡ own)
        ⊎ ((url : String) × (get "manifest_url" candidate ≡ str url) × IsFetched setup own url m)

  remote_url_lem : (source v : Value) (url : String) → remote_url source v ≡ some url → v ≡ str url
  remote_url_lem source (str u) url h = ap str (ground arith)
  remote_url_lem source _ url h = cc

  candidate_manifest_lem :
      (candidate m : Fields)
      → candidate_manifest candidate ≡ ok m
      → get "manifest" candidate ≡ obj m
  unfolding candidate_manifest
  candidate_manifest_lem candidate m h = ground arith

  origin_lem :
      (setup : Setup) (candidate own m : Fields) (source : Value) (url : Option String)
      → remote_url source (get "manifest_url" candidate) ≡ url
      → choose_manifest setup own url ≡ ok m
      → (m ≡ own)
        ⊎ ((url : String) × (get "manifest_url" candidate ≡ str url) × IsFetched setup own url m)
  unfolding choose_manifest
  origin_lem setup candidate own m source none e h = inl (ground arith)
  origin_lem setup candidate own m source (some url) e h = inr (
    url,
    remote_url_lem source (get "manifest_url" candidate) url e,
    fetch_remote_lem setup own url m h,
  )

  -- A manifest that is accepted is as `IsAccepted` says.
  pub accept_sound :
      (setup : Setup) (candidate m : Fields)
      → accept setup candidate ≡ ok m
      → IsAccepted setup candidate m
  unfolding accept
  accept_sound setup candidate m h =
      let (own, held) = returned (candidate_manifest candidate) _ h in
      let (n, valid) = returned (validate_manifest own) _ (rw held at h) in
      let (_, allowed) = returned (enforce_install setup.policy own) _ (rw (held, valid) at h) in
      let (source, read) =
        returned (get_in "source" (get "origin" own)) _ (rw (held, valid, allowed) at h) in
      record {
        own = own;
        held = candidate_manifest_lem candidate own held;
        valid = rw (validate_manifest_returns own n valid) at valid;
        allowed = allowed;
        origin =
            origin_lem setup candidate own m source
              (remote_url source (get "manifest_url" candidate)) refl
              (rw (held, valid, allowed, read) at h);
      }
