-- ===== src/Value.antt =====
-- The values of the service: what `json.loads` returns. A manifest is a `Fields`.
pub mod Compare
use unison_capabilities.Base.{
  arith, ◌||◌, ℕ, ◌^◌, ◌*◌, String, ◌≡◌, refl, Bool, true, false, not, ◌&&◌, ◌||◌, zero, suc,
  Option, none, some, List, [], ◌∷◌, any, all, member, has_text, ltb, leb, ◌==◌, if◌then◌else◌,
}
use unison_capabilities.Base.Dict
use unison_capabilities.Base.Dict.{Dict}
use unison_capabilities.Error.{Result, ok, err, python_error, ◌>>=◌, ◌>>◌, raise_if}

-- A number of Python: (-1)^negative * mantissa * 10^(-places), or one of the values of `float`
-- that `json.loads` and `float` return beside these.
pub data Number : Type 0 where
  decimal : (negative : Bool) (mantissa places : ℕ) → Number
  nan pos_inf neg_inf : Number

mutual
  pub data Value : Type 0 where
    null : Value
    bool : Bool → Value
    num : Number → Value
    str : String → Value
    arr : Items → Value
    obj : Fields → Value

  pub data Fields : Type 0 where
    end : Fields
    field : String → Value → Fields → Fields

  pub data Items : Type 0 where
    nil : Items
    cons : Value → Items → Items

abbrev pub items : Items → List Value
items nil = []
items (cons v vs) = v ∷ items vs

abbrev pub of_list : List Value → Items
of_list [] = nil
of_list (v ∷ vs) = cons v (of_list vs)

abbrev pub entries : Fields → Dict Value
entries end = []
entries (field k v fs) = (k, v) ∷ entries fs

abbrev pub of_entries : Dict Value → Fields
of_entries [] = end
of_entries ((k, v) ∷ d) = field k v (of_entries d)

pub entries-of_entries : (d : Dict Value) → entries (of_entries d) ≡ d
entries-of_entries [] = refl
entries-of_entries ((k, v) ∷ d) = λ i. (k, v) ∷ entries-of_entries d i

abbrev pub or_null : Option Value → Value
or_null none = null
or_null (some v) = v

-- `d.get(k)`
unfoldable pub get : String → Fields → Value
get k m = or_null (Dict.lookup k (entries m))

-- `k in d`
unfoldable pub has : String → Fields → Bool
has k m = Dict.has_key k (entries m)

-- `d.get(k, default)`
abbrev pub get_default : String → Value → Fields → Value
get_default k default m = if has k m then get k m else default

-- `d[k] = v`, on a copy
unfoldable pub put : String → Value → Fields → Fields
put k v m = of_entries (Dict.insert k v (entries m))

abbrev pub number_truthy : Number → Bool
number_truthy (decimal s m p) = ltb 0 m
number_truthy _ = true

-- `bool(v)`
abbrev pub truthy : Value → Bool
truthy null = false
truthy (bool b) = b
truthy (num n) = number_truthy n
truthy (str s) = not (s == "")
truthy (arr nil) = false
truthy (arr (cons v vs)) = true
truthy (obj end) = false
truthy (obj (field k v fs)) = true

-- `isinstance(v, dict)` and the dict
abbrev pub as_dict : Value → Option Fields
as_dict (obj fs) = some fs
as_dict _ = none

-- `isinstance(v, list)` and the list
abbrev pub as_list : Value → Option (List Value)
as_list (arr vs) = some (items vs)
as_list _ = none

-- `isinstance(v, str)` and the string
abbrev pub as_text : Value → Option String
as_text (str s) = some s
as_text _ = none

-- `v if isinstance(v, dict) else {}`
abbrev pub dict_or_empty : Value → Fields
dict_or_empty (obj fs) = fs
dict_or_empty _ = end

-- `v if isinstance(v, list) else []`
abbrev pub list_or_empty : Value → List Value
list_or_empty (arr vs) = items vs
list_or_empty _ = []

-- `v == "…"`
abbrev pub is_text : String → Value → Bool
is_text t (str s) = s == t
is_text t _ = false

-- `v is True`
abbrev pub is_true : Value → Bool
is_true (bool b) = b
is_true _ = false

-- `v is False`
abbrev pub is_false : Value → Bool
is_false (bool b) = not b
is_false _ = false

-- Python's own conversions, where the model does not spell them out: `repr` of a number or a
-- container, `float` of a string, and `datetime.fromisoformat`, whose instant is counted in
-- microseconds; a string with no time zone counts as one that raises, since it cannot be compared.
pub record Python : Type 0 where
  pub repr : Value → String
  pub float_of : String → Result Number
  -- `int` of a text, and of a number of `float`
  pub int_of : String → Result Number
  pub truncate : Number → Result Number
  pub instant_of : String → Result ℕ

module _ ⦃py : Python⦄ where
  -- `str(v)`
  abbrev pub to_text : Value → String
  to_text (str s) = s
  to_text null = "None"
  to_text (bool true) = "True"
  to_text (bool false) = "False"
  to_text v = py.repr v

  -- `str(v or "")`
  abbrev pub text_or_empty : Value → String
  text_or_empty v = if truthy v then to_text v else ""

-- `str(v) if v else None`
unfoldable pub text_if_truthy : ⦃py : Python⦄ → Value → Option String
text_if_truthy v = if truthy v then some (to_text v) else none

-- `str(v or default)`
unfoldable pub text_or : ⦃py : Python⦄ → String → Value → String
text_or default v = if truthy v then to_text v else default

-- `x <= n` and `x > n` for a whole number `n`; a comparison with `nan` is false
unfoldable pub at_most : Number → ℕ → Bool
at_most (decimal true m p) n = true
at_most (decimal false m p) n = leb m (n * 10 ^ p)
at_most neg_inf n = true
at_most _ n = false

unfoldable pub exceeds : Number → ℕ → Bool
exceeds (decimal false m p) n = ltb (n * 10 ^ p) m
exceeds pos_inf n = true
exceeds _ n = false

module _ ⦃py : Python⦄ where
  -- `float(v)`
  unfoldable pub to_float : Value → Result Number
  to_float (num n) = ok n
  to_float (bool b) = ok (decimal false (if b then 1 else 0) 0)
  to_float (str s) = py.float_of s
  to_float _ = err (python_error "TypeError")

module _ ⦃py : Python⦄ where
  -- `int(v)`
  unfoldable pub to_int : Value → Result Number
  to_int (num (decimal s m zero)) = ok (decimal s m zero)
  to_int (num n) = py.truncate n
  to_int (bool b) = ok (decimal false (if b then 1 else 0) 0)
  to_int (str s) = py.int_of s
  to_int _ = err (python_error "TypeError")

-- A key that was put has the new value; the others keep theirs.
pub get-put :
    (j k : String) (v : Value) (m : Fields) → get j (put k v m) ≡ (if k == j then v else get j m)
unfolding get put
get-put j k v m = rw (entries-of_entries, Dict.lookup-insert) (ground arith)

pub has-put : (j k : String) (v : Value) (m : Fields) → has j (put k v m) ≡ (k == j || has j m)
unfolding has put
has-put j k v m = rw (entries-of_entries, Dict.lookup-insert) (ground arith)
