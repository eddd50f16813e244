-- ===== src/Secrets/Roundtrip.antt =====
-- What a secret that was put into the file of src/credential_secrets.py is read back as.
use unison_capabilities.Base.{
  String, ◌≡◌, ◌≢◌, refl, false, some, [], ◌∷◌, arith, ◌==◌, eq_iff, eq_refl, inl, inr,
  Option-cases,
}
use unison_capabilities.Base.Dict
use unison_capabilities.Base.Dict.{Dict, lookup-insert, lookup-erase}
use unison_capabilities.Value.{Value, Fields, obj, Python, get, has, of_entries, entries-of_entries}
use unison_capabilities.Error.{ok, err, policy_error, Result-cases}
use unison_capabilities.Store.{File}
use unison_capabilities.Secrets.{
  Cipher, ensure_handle, objects, read_all, sealed, put_object, put_secret, get_secret,
  delete_secret,
}

-- the secrets as the object that is written
abbrev pub wrap : Dict Fields → Dict Value
wrap [] = []
wrap ((k, m) ∷ d) = (k, obj m) ∷ wrap d

objects-wrap : (d : Dict Fields) → objects (wrap d) ≡ d
unfolding objects
objects-wrap [] = refl
objects-wrap ((k, m) ∷ d) = λ i. (k, m) ∷ objects-wrap d i

-- What is documented of Fernet and of `json`, for one dictionary of secrets: the token decrypts to
-- its plaintext and is not empty, and the text of an object is read back as that object, up to the
-- order of its keys.
pub record Restores ⦃cipher : Cipher⦄ (d : Dict Fields) : Type 0 where
  pub token : cipher.decrypt (cipher.encrypt (cipher.dumps d)) ≡ some (cipher.dumps d)
  pub nonempty : cipher.encrypt (cipher.dumps d) ≢ ""
  pub json : cipher.loads (cipher.dumps d) ≡ ok (obj (of_entries (wrap d)))

module _ ⦃py : Python⦄ ⦃cipher : Cipher⦄ where
  read_all-sealed : (d : Dict Fields) → Restores d → read_all (sealed d) ≡ ok d
  unfolding read_all get has Dict.lookup
  read_all-sealed d restores =
      let t = cipher.encrypt (cipher.dumps d) in
      let full : (t == "") ≡ false = ground (arith, eq_iff t "", restores.nonempty) in
      rw (full, restores.token, restores.json, entries-of_entries (wrap d), objects-wrap d) refl

  -- A secret that is put under a valid handle of a readable file is read back as it was, and every
  -- other handle is read as before.
  pub get-put_secret :
      (f : File) (d : Dict Fields) (handle : String) (value : Fields)
      → read_all f ≡ ok d
      → ensure_handle handle ≡ ok tt
      → Restores (Dict.insert handle value d)
      → (f' : File) × (put_secret handle (obj value) f ≡ (ok tt, f'))
        × (get_secret handle f' ≡ (ok value, f'))
        × ((other : String)
            → (handle == other) ≡ false
            → (get_secret other f').0 ≡ (get_secret other f).0)
  unfolding put_secret put_object get_secret
  get-put_secret f d handle value read valid restores =
      let next = Dict.insert handle value d in
      let again = read_all-sealed next restores in
      (
        sealed next,
        rw (valid, read) refl,
        rw (valid, again, lookup-insert handle handle value d, eq_refl handle) refl,
        λ other differs. elim (Result-cases (ensure_handle other)) [
          | inr (e, bad) ↦ rw bad refl
          | inl (_, good) ↦ rw (good, again, read, lookup-insert other handle value d, differs) refl
        ],
      )

  -- Deleting a handle returns whether it was there, after which reading it raises; every other
  -- handle is read as before.
  pub delete_secret_effect :
      (f : File) (d : Dict Fields) (handle : String)
      → read_all f ≡ ok d
      → ensure_handle handle ≡ ok tt
      → Restores (Dict.erase handle d)
      → ((delete_secret handle f).0 ≡ ok (Dict.has_key handle d))
        × ((get_secret handle (delete_secret handle f).1).0
            ≡ err (policy_error "secret handle not found"))
        × ((other : String)
            → (handle == other) ≡ false
            → (get_secret other (delete_secret handle f).1).0 ≡ (get_secret other f).0)
  unfolding delete_secret get_secret
  delete_secret_effect f d handle read valid restores =
      let again = read_all-sealed (Dict.erase handle d) restores in
      elim (Option-cases (Dict.lookup handle d)) [
        | inl missing ↦ (
          rw (valid, read, missing) refl,
          rw (valid, read, missing, read, missing) refl,
          λ other differs. rw (valid, read, missing) refl,
        )
        | inr (v, there) ↦ (
          rw (valid, read, there) refl,
          rw (valid, read, there, again, lookup-erase handle handle d, eq_refl handle) refl,
          λ other differs. elim (Result-cases (ensure_handle other)) [
            | inr (e, bad) ↦ rw (valid, read, there, bad) refl
            | inl (_, good) ↦
                rw (valid, read, there, good, again, lookup-erase other handle d, differs, read)
                  refl
          ],
        )
      ]
