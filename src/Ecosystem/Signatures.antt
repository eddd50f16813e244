-- ===== src/Ecosystem/Signatures.antt =====
-- src/ecosystem.py: the signatures of manifests, and the API range of a capability. Ed25519, base64
-- and the canonical JSON text are parameters; copying through JSON gives the same manifest.
use unison_capabilities.Base.{
  ℕ, ◌+◌, ◌*◌, ◌^◌, String, ◌<>◌, Bool, true, false, not, ◌&&◌, Option, none, some, leb,
  starts_with, drop_text, if◌then◌else◌,
}
use unison_capabilities.Base.Dict
use unison_capabilities.Base.Dict.{Dict}
use unison_capabilities.Value.{
  Number, decimal, pos_inf, Value, Fields, end, arr, obj, str, num, get, put, entries, of_entries,
  get_default, Python, to_int, at_most,
}
use unison_capabilities.Error.{Result, ok, err, policy_error, python_error, ◌>>=◌, raise_if}

-- `private_key.sign`, `public_key.verify`, base64, and `json.dumps` with sorted keys.
pub record Ed25519 : Type 0 where
  pub sign : String → String → String
  pub verify : String → String → String → Bool
  pub b64encode : String → String
  pub b64decode : String → Option String
  pub dumps : Fields → String

-- `d.pop(key, None)`
unfoldable pub drop : String → Fields → Fields
drop k m = of_entries (Dict.erase k (entries m))

-- the governance without its signature, where there is one
unfoldable pub unsigned : Fields → Fields
unsigned manifest = elim (get "governance" manifest) [
  | obj g ↦ put "governance" (obj (drop "signature" g)) manifest
  | _ ↦ manifest
]

-- the dict under the key, `{}` where there is none
abbrev pub governance_to_sign : Value → Result Fields
governance_to_sign (obj g) = ok g
governance_to_sign v = err (python_error "TypeError")

-- The publisher as a key of the trusted ones: a list or a dict cannot be looked up.
abbrev pub trusted_key : Value → Dict String → Result (Option String)
trusted_key (str publisher) trusted = ok (Dict.lookup publisher trusted)
trusted_key (arr vs) trusted = err (python_error "TypeError")
trusted_key (obj fs) trusted = err (python_error "TypeError")
trusted_key v trusted = ok none

module _ ⦃ed : Ed25519⦄ where
  unfoldable pub canonical_manifest : Fields → String
  canonical_manifest manifest = ed.dumps (unsigned manifest)

  abbrev pub with_publisher : String → Fields → Fields
  with_publisher publisher g = drop "signature" (put "publisher" (str publisher) g)

  abbrev pub with_signature : String → Fields → Fields → Fields
  with_signature key g manifest =
      put "governance"
        (obj (
          put "signature"
            (str ("ed25519:" <> ed.b64encode (ed.sign key (canonical_manifest manifest)))) g))
        manifest

  unfoldable pub sign_manifest : Fields → String → String → Result Fields
  sign_manifest manifest key publisher = do
    g ← governance_to_sign (get_default "governance" (obj end) manifest)
    let owned = with_publisher publisher g
    ok (with_signature key owned (put "governance" (obj owned) manifest))

  -- the decoded signature, and whether the key accepts it
  abbrev pub accepts : String → Option String → Fields → Bool
  accepts key none manifest = false
  accepts key (some signature) manifest = ed.verify key signature (canonical_manifest manifest)

  -- the checks once the key and the signature are there
  abbrev pub check_signature : Option String → Value → Fields → Result (Unit {0})
  check_signature (some key) (str encoded) manifest =
      if starts_with encoded "ed25519:"
      then raise_if (not (accepts key (ed.b64decode (drop_text 8 encoded)) manifest))
          (policy_error "capability signature verification failed")
      else err (policy_error "capability publisher or signature is not trusted")
  check_signature key v manifest =
      err (policy_error "capability publisher or signature is not trusted")

  abbrev pub verify_governance : Value → Fields → Dict String → Result (Unit {0})
  verify_governance (obj g) manifest trusted = trusted_key (get "publisher" g) trusted >>= λ key.
      check_signature key (get "signature" g) manifest
  verify_governance v manifest trusted = err (policy_error "capability governance is required")

  unfoldable pub verify_manifest_signature : Fields → Dict String → Result (Unit {0})
  verify_manifest_signature manifest trusted =
      verify_governance (get "governance" manifest) manifest trusted

-- `n <= x` for a number that `int` gave
unfoldable pub at_least : Number → ℕ → Bool
at_least (decimal false m p) n = leb (n * 10 ^ p) m
at_least (decimal true m p) n = leb (n * 10 ^ p + m) 0
at_least pos_inf n = true
at_least _ n = false

abbrev missing_api : Value
missing_api = num (decimal true 1 0)

module _ ⦃py : Python⦄ where
  abbrev check_range : ℕ → Value → Result (Unit {0})
  check_range host (obj range) = do
    minimum ← to_int (get_default "min_host_api" missing_api range)
    maximum ← to_int (get_default "max_host_api" missing_api range)
    raise_if (not (at_most minimum host && at_least maximum host))
        (policy_error "capability is incompatible with this host")
  check_range host v = err (policy_error "capability compatibility range is required")

  unfoldable pub require_compatibility : Fields → ℕ → Result (Unit {0})
  require_compatibility manifest host = check_range host (get "compatibility" manifest)
