-- ===== src/Error.antt =====
-- errors.py, and the calls that may raise: a result is a value or the exception.
use unison_capabilities.Base.{
  Bool, true, false, ◌≡◌, ◌⊎◌, inl, inr, refl, if◌then◌else◌, String, Option, none, some,
}

-- The classes of errors.py, each with its message, and the exceptions of Python itself by name.
pub data Error : Type 0 where
  not_found_error : String → Error
  manifest_error : String → Error
  policy_error : String → Error
  install_error : String → Error
  run_error : String → Error
  python_error : String → Error

pub data Result {ℓ} (A : Type ℓ) : Type ℓ where
  err : Error → Result A
  ok : A → Result A

-- `if b: raise e`
abbrev pub raise_if : Bool → Error → Result (Unit {0})
raise_if b e = if b then err e else ok tt

infixl 5 ◌>>=◌
-- An exception passes the next call by.
abbrev pub ◌>>=◌ {ℓ κ} : {A : Type ℓ} {B : Type κ} → Result A → (A → Result B) → Result B
err e >>= next = err e
ok a >>= next = next a

infixl 5 ◌>>◌
abbrev pub ◌>>◌ {κ} : {B : Type κ} → Result (Unit {0}) → Result B → Result B
check >> rest = check >>= λ done. rest

-- Where a chain of two calls returned, so did each of them.
pub bind-eq-ok {ℓ κ} :
    {A : Type ℓ} {B : Type κ} {last : B} (first : Result A) (next : A → Result B)
    → first >>= next ≡ ok last
    → (got : A) × (first ≡ ok got) × (next got ≡ ok last)
bind-eq-ok (err e) next returned = cc
bind-eq-ok (ok got) next returned = (got, refl, returned)

-- Whether the call returned.
abbrev pub is_ok {ℓ} : {A : Type ℓ} → Result A → Bool
is_ok (ok a) = true
is_ok (err e) = false

-- What the call returned, or the first argument where it raised.
abbrev pub value_or {ℓ} : {A : Type ℓ} → A → Result A → A
value_or a (ok b) = b
value_or a (err e) = a

-- The message of an exception, `str(exc)`.
abbrev pub message : Error → String
message (not_found_error s) = s
message (manifest_error s) = s
message (policy_error s) = s
message (install_error s) = s
message (run_error s) = s
message (python_error s) = s

-- `try: … except Exception: pass`
abbrev pub attempt {ℓ} : {A : Type ℓ} → Result A → Option A
attempt (ok a) = some a
attempt (err e) = none

pub Result-cases {ℓ} :
    {A : Type ℓ} (r : Result A) → ((a : A) × (r ≡ ok a)) ⊎ ((e : Error) × (r ≡ err e))
Result-cases (ok a) = inl (a, refl)
Result-cases (err e) = inr (e, refl)
