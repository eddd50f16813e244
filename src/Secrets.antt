-- ===== src/Secrets.antt =====
-- src/credential_secrets.py: the encrypted file of secrets behind handles. Fernet, and the JSON
-- text of the plaintext, are parameters. A method holds the file lock, so it is one step.
pub mod Roundtrip
use unison_capabilities.Base.{
  String, Bool, true, false, not, Option, none, some, List, [], ◌∷◌, ◌==◌, starts_with,
  if◌then◌else◌,
}
use unison_capabilities.Base.Dict
use unison_capabilities.Base.Dict.{Dict}
use unison_capabilities.Value.{
  Value, Fields, end, field, obj, str, num, decimal, Python, get, has, entries, text_or_empty,
}
use unison_capabilities.Error
use unison_capabilities.Error.{Error, Result, ok, err, policy_error, python_error, raise_if}
use unison_capabilities.Exec.{Exec, pure, raise, lift, reads, modify, ◌>>=◌, ◌>>◌}
use unison_capabilities.Store.{File, absent, broken, holds}

-- `Fernet(key)`, where `decrypt` has no value for an invalid token; `json.dumps` of the secrets and
-- `json.loads` of a text.
pub record Cipher : Type 0 where
  pub encrypt : String → String
  pub decrypt : String → Option String
  pub dumps : Dict Fields → String
  pub loads : String → Result Value

unfoldable pub ensure_handle : String → Result (Unit {0})
ensure_handle handle =
    raise_if (not (starts_with handle "secret://")) (policy_error "invalid secret handle")

-- the loop over the plaintext, which keeps the entries that are objects
unfoldable pub objects : Dict Value → Dict Fields
objects [] = []
objects ((k, obj m) ∷ rest) = (k, m) ∷ objects rest
objects ((k, v) ∷ rest) = objects rest

abbrev pub plaintext : Value → Result (Dict Fields)
plaintext (obj fs) = ok (objects (entries fs))
plaintext v = err (policy_error "invalid secrets store plaintext")

module _ ⦃py : Python⦄ ⦃cipher : Cipher⦄ where
  abbrev pub opened : Option String → Result (Dict Fields)
  opened none = err (policy_error "unable to decrypt secrets store")
  opened (some pt) = Error.◌>>=◌ (cipher.loads pt) plaintext

  unfoldable pub read_all : File → Result (Dict Fields)
  read_all absent = ok []
  read_all broken = err (python_error "JSONDecodeError")
  read_all (holds (obj raw)) =
      if has "data" raw
      then opened (cipher.decrypt (text_or_empty (get "data" raw)))
      else err (policy_error "invalid secrets store")
  read_all (holds v) = err (policy_error "invalid secrets store")

  abbrev pub sealed : Dict Fields → File
  sealed secrets = holds (
      obj (
        field "v" (num (decimal false 1 0))
          (field "data" (str (cipher.encrypt (cipher.dumps secrets))) end)))

  unfoldable pub write_all : Dict Fields → Exec File (Unit {0})
  write_all secrets = modify (λ f. sealed secrets)

  unfoldable pub put_object : String → Fields → Exec File (Unit {0})
  unfolding write_all
  put_object handle value = do
    secrets ← reads read_all
    write_all (Dict.insert handle value secrets)

  unfoldable pub put_secret : String → Value → Exec File (Unit {0})
  put_secret handle (obj value) = lift (ensure_handle handle) >> put_object handle value
  put_secret handle v =
      lift (ensure_handle handle) >> raise (policy_error "secret value must be an object")

  abbrev pub found : Option Fields → Result Fields
  found none = err (policy_error "secret handle not found")
  found (some value) = ok value

  unfoldable pub get_secret : String → Exec File Fields
  get_secret handle = do
    lift (ensure_handle handle)
    secrets ← reads read_all
    lift (found (Dict.lookup handle secrets))

  unfoldable pub delete_secret : String → Exec File Bool
  unfolding write_all
  delete_secret handle = do
    lift (ensure_handle handle)
    secrets ← reads read_all
    if not (Dict.has_key handle secrets)
        then pure false
        else do write_all (Dict.erase handle secrets); pure true
