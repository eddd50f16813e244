-- ===== src/Resolver/Accept.antt =====
-- The first half of `install` of src/resolver.py: which manifest is accepted.
use unison_capabilities.Base.{String, ◌<>◌, not, ◌&&◌, Option, none, some, ◌==◌, if◌then◌else◌}
use unison_capabilities.Value.{
  Value, Fields, obj, str, Python, get, text_or_empty, dict_or_empty, is_text,
}
use unison_capabilities.Error.{Result, ok, err, install_error, message, raise_if, ◌>>=◌, ◌>>◌}
use unison_capabilities.Schema.{Validator, validate_manifest}
use unison_capabilities.Egress.{Network, request}
use unison_capabilities.Policy.{enforce_install, get_in}
use unison_capabilities.Discovery.{Hashing}
use unison_capabilities.Resolver.{Setup, normalize_digest}

-- `candidate["manifest"]`, a dict
unfoldable pub candidate_manifest : Fields → Result Fields
candidate_manifest candidate = elim (get "manifest" candidate) [
  | obj m ↦ ok m
  | _ ↦ err (install_error "candidate.manifest required")
]

-- `try: … except Exception as exc: raise CapabilityInstallError`
abbrev pub fetched : Result Value → Result Value
fetched (ok v) = ok v
fetched (err e) =
    err
      (install_error ("failed to fetch remote manifest from candidate.manifest_url: " <> message e))

-- The manifest is fetched from a URL, or it is the candidate's own.
abbrev pub remote_url : Value → Value → Option String
remote_url source (str url) = if is_text "url" source && not (url == "") then some url else none
remote_url source v = none

module _ ⦃net : Network⦄ where
  -- through the egress controller, if there is one
  unfoldable pub send : Setup → String → Result Value
  send setup url = elim setup.egress [
    | some cfg ↦ request cfg setup.http_client url
    | none ↦ setup.http_client url
  ]

module _ ⦃py : Python⦄ ⦃validator : Validator⦄ ⦃hash : Hashing⦄ ⦃net : Network⦄ where
  unfoldable pub expected_digest : Fields → String
  expected_digest manifest =
      normalize_digest (text_or_empty (get "digest" (dict_or_empty (get "origin" manifest))))

  unfoldable pub digest_of : Fields → String
  digest_of manifest = hash.sha256_text (hash.dumps manifest)

  -- the checks on what was fetched
  unfoldable pub check_remote : Fields → Value → Result Fields
  check_remote manifest (obj remote) = do
    _ ← validate_manifest remote
    raise_if
        (not (expected_digest manifest == "") && not (digest_of remote == expected_digest manifest))
        (install_error "origin.digest pinning failed (sha256 of canonical manifest does not match)")
    ok remote
  check_remote manifest v = err (install_error "remote manifest must be an object")

  unfoldable pub fetch_remote : Setup → Fields → String → Result Fields
  fetch_remote setup manifest url = do
    parsed ← net.urlparse url
    raise_if (not (parsed.scheme == "https")) (install_error "remote manifest fetch requires https")
    v ← fetched (send setup url)
    check_remote manifest v

  unfoldable pub choose_manifest : Setup → Fields → Option String → Result Fields
  choose_manifest setup manifest none = ok manifest
  choose_manifest setup manifest (some url) = fetch_remote setup manifest url

  -- The manifest that is installed.
  unfoldable pub accept : Setup → Fields → Result Fields
  accept setup candidate = do
    manifest ← candidate_manifest candidate
    _ ← validate_manifest manifest
    enforce_install setup.policy manifest
    source ← get_in "source" (get "origin" manifest)
    choose_manifest setup manifest (remote_url source (get "manifest_url" candidate))
