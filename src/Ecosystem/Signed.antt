-- ===== src/Ecosystem/Signed.antt =====
-- A manifest that src/ecosystem.py has signed passes its own verification.
use text.Mathlib.TextLemmas.{cons-append, nil-append}
use text.Mathlib.TextPositions.{starts_with-append}
use unison_capabilities.Base.{
  String, ◌<>◌, ◌≡◌, refl, ap, ◌∙◌, true, some, [], ◌∷◌, arith, ◌==◌, eq_refl, drop_text,
  if◌then◌else◌,
}
use unison_capabilities.Base.Dict
use unison_capabilities.Base.Dict.{Dict, lookup-erase}
use unison_capabilities.Base.Dict.Update.{insert-insert}
use unison_capabilities.Value.{
  Value, Fields, null, obj, end, str, get, put, get-put, get_default, entries-of_entries,
}
use unison_capabilities.Error.{ok, value_or, bind-eq-ok}
use unison_capabilities.Ecosystem.Signatures.{
  Ed25519, drop, unsigned, canonical_manifest, with_publisher, with_signature, governance_to_sign,
  sign_manifest, verify_manifest_signature,
}

erase-insert :
    {V : Type 0} (k : String) (v : V) (d : Dict V)
    → Dict.erase k (Dict.insert k v d) ≡ Dict.erase k d
unfolding Dict.insert Dict.erase
erase-insert k v [] = ground (arith, eq_refl k)
erase-insert k v ((j, u) ∷ d) = ground (arith, eq_refl k, erase-insert k v d)

put-put : (k : String) (v w : Value) (m : Fields) → put k v (put k w m) ≡ put k v m
unfolding put
put-put k v w m = rw (entries-of_entries, insert-insert) refl

drop-put : (k : String) (v : Value) (m : Fields) → drop k (put k v m) ≡ drop k m
unfolding drop put
drop-put k v m = rw (entries-of_entries, erase-insert) refl

-- What is documented of Ed25519 and base64: a signature is accepted by the public key, and an
-- encoded text decodes to itself.
pub record KeyPair ⦃ed : Ed25519⦄ (private public : String) : Type 0 where
  pub accepted : (text : String) → ed.verify public (ed.sign private text) text ≡ true
  pub decoded : (text : String) → ed.b64decode (ed.b64encode text) ≡ some text

unsigned-put :
    (g m : Fields)
    → unsigned (put "governance" (obj g) m)
      ≡ put "governance" (obj (drop "signature" g)) (put "governance" (obj g) m)
unfolding unsigned
unsigned-put g m = ground (arith, get-put "governance" "governance" (obj g) m)

unsigned_signed :
    (v : Value) (g m : Fields)
    → unsigned (put "governance" (obj (put "signature" v g)) (put "governance" (obj g) m))
      ≡ unsigned (put "governance" (obj g) m)
unsigned_signed v g m =
    unsigned-put (put "signature" v g) (put "governance" (obj g) m)
    ∙ rw (drop-put "signature" v g, put-put, unsigned-put g m) refl

get-drop : (j k : String) (m : Fields) → get j (drop k m) ≡ (if k == j then null else get j m)
unfolding get drop
get-drop j k m = rw (entries-of_entries, lookup-erase) (ground arith)

drop-prefix : (t : String) → drop_text 8 ("ed25519:" <> t) ≡ t
unfolding drop_text
drop-prefix t =
    rw
      (
        cons-append, cons-append, cons-append, cons-append, cons-append, cons-append, cons-append,
        cons-append, nil-append,
      )
      refl

module _ ⦃ed : Ed25519⦄ where
  -- A signature in the governance does not change what is signed.
  same_text :
      (v : Value) (g m : Fields)
      → canonical_manifest
          (put "governance" (obj (put "signature" v g)) (put "governance" (obj g) m))
        ≡ canonical_manifest (put "governance" (obj g) m)
  unfolding canonical_manifest
  same_text v g m = ap ed.dumps (unsigned_signed v g m)

  accepted_lem :
      (m g : Fields) (publisher public text signature : String) (trusted : Dict String)
      → get "governance" m ≡ obj g
      → get "publisher" g ≡ str publisher
      → get "signature" g ≡ str ("ed25519:" <> text)
      → Dict.lookup publisher trusted ≡ some public
      → ed.b64decode text ≡ some signature
      → ed.verify public signature (canonical_manifest m) ≡ true
      → verify_manifest_signature m trusted ≡ ok tt
  unfolding verify_manifest_signature
  accepted_lem m g publisher public text signature trusted h p t known d v =
      rw (h, p, t, known, starts_with-append "ed25519:" text, drop-prefix text, d, v) refl

  verified :
      (private public publisher : String) (trusted : Dict String) (g m : Fields)
      → KeyPair private public
      → Dict.lookup publisher trusted ≡ some public
      → verify_manifest_signature
          (with_signature private
            (with_publisher publisher g)
            (put "governance" (obj (with_publisher publisher g)) m))
          trusted
        ≡ ok tt
  unfolding verify_manifest_signature
  verified private public publisher trusted g m pair known =
      let owned = with_publisher publisher g in
      let before = put "governance" (obj owned) m in
      let text = ed.b64encode (ed.sign private (canonical_manifest before)) in
      let same : canonical_manifest (with_signature private owned before)
          ≡ canonical_manifest before =
        same_text (str ("ed25519:" <> text)) owned m in
      let signature = ed.sign private (canonical_manifest before) in
      accepted_lem (with_signature private owned before)
        (put "signature" (str ("ed25519:" <> text)) owned) publisher public text signature trusted
        (get-put "governance" "governance" _ before) (rw (get-put, get-drop, get-put) refl)
        (get-put "signature" "signature" _ owned) known (pair.decoded signature)
        (rw same (pair.accepted (canonical_manifest before)))

  -- A manifest that was signed by a private key passes the verification of its publisher's public
  -- key, where the publisher is trusted with that key.
  pub verify-sign_manifest :
      (manifest signed : Fields) (private public publisher : String) (trusted : Dict String)
      → KeyPair private public
      → Dict.lookup publisher trusted ≡ some public
      → sign_manifest manifest private publisher ≡ ok signed
      → verify_manifest_signature signed trusted ≡ ok tt
  unfolding sign_manifest verify_manifest_signature
  verify-sign_manifest manifest signed private public publisher trusted pair known made =
      let (g, is_dict, rest) =
        bind-eq-ok (governance_to_sign (get_default "governance" (obj end) manifest)) _ made in
      let owned = with_publisher publisher g in
      let before = put "governance" (obj owned) manifest in
      let is_signed : with_signature private owned before ≡ signed =
        λ i. value_or signed (rest i) in
      rw (← is_signed) (verified private public publisher trusted g manifest pair known)
