-- ===== src/Value/Compare.antt =====
-- Equality of values, `in` and set intersection, as Python has them.
use unison_capabilities.Base.{
  ℕ, suc, ◌*◌, ◌^◌, String, Bool, true, false, not, ◌&&◌, ◌||◌, Option, none, some, List, [], ◌∷◌,
  any, all, leb, member, has_text, ◌==◌, if◌then◌else◌,
}
use unison_capabilities.Base.Dict
use unison_capabilities.Base.Dict.{Dict}
use unison_capabilities.Error.{Result, ok, err, python_error, ◌>>=◌, ◌>>◌, raise_if}
use unison_capabilities.Value.{
  Number, decimal, pos_inf, neg_inf, Value, null, bool, num, str, arr, obj, Items, nil, cons,
  Fields, end, field, items, entries,
}

abbrev same_sign : Bool → Bool → Bool
same_sign true b = b
same_sign false b = not b

abbrev nat_eq : ℕ → ℕ → Bool
nat_eq a b = leb a b && leb b a

-- The test at the value, false on `none`.
abbrev holds_some {ℓ} : {A : Type ℓ} → (A → Bool) → Option A → Bool
holds_some p none = false
holds_some p (some a) = p a

-- A value that a set or a dict can look up.
abbrev pub is_hashable : Value → Bool
is_hashable (arr vs) = false
is_hashable (obj fs) = false
is_hashable _ = true

-- `v in names`, for a set of strings
unfoldable pub in_set : Value → List String → Result Bool
in_set (str s) names = ok (member s names)
in_set (arr vs) names = err (python_error "TypeError")
in_set (obj fs) names = err (python_error "TypeError")
in_set _ names = ok false

abbrev pub keys : Dict Value → List Value
keys [] = []
keys ((k, v) ∷ d) = str k ∷ keys d

abbrev pub letters : String → List Value
letters String.[] = []
letters (String.◌∷◌ c s) = str (String.◌∷◌ c String.[]) ∷ letters s

-- `iter(v)`
abbrev pub iterate : Value → Result (List Value)
iterate (arr vs) = ok (items vs)
iterate (str s) = ok (letters s)
iterate (obj fs) = ok (keys (entries fs))
iterate _ = err (python_error "TypeError")

abbrev pub text_in : List String → Value → Bool
text_in names (str s) = member s names
text_in names _ = false

-- `bool(names.intersection(v))`, for a set of strings
unfoldable pub intersects : List String → Value → Result Bool
intersects names v = do
  vs ← iterate v
  raise_if (not (all is_hashable vs)) (python_error "TypeError")
  ok (any (text_in names) vs)

abbrev same_decimal : Bool → ℕ → ℕ → Bool → ℕ → ℕ → Bool
same_decimal s m p t n q = nat_eq (m * 10 ^ q) (n * 10 ^ p) && (nat_eq m 0 || same_sign s t)

-- `x == y` for numbers
abbrev pub number_eq : Number → Number → Bool
number_eq (decimal s m p) (decimal t n q) = same_decimal s m p t n q
number_eq pos_inf pos_inf = true
number_eq neg_inf neg_inf = true
number_eq _ _ = false

-- `True` and `False` are equal to 1 and 0.
abbrev bool_number : Bool → Number
bool_number b = decimal false (if b then 1 else 0) 0

abbrev items_length : Items → ℕ
items_length nil = 0
items_length (cons v vs) = suc (items_length vs)

abbrev fields_length : Fields → ℕ
fields_length end = 0
fields_length (field k v fs) = suc (fields_length fs)

-- `v == w`; two dicts are equal if they hold equal values at the same keys, in any order.
unfoldable mutual
  pub value_eq : Value → Value → Bool
  value_eq null null = true
  value_eq (bool b) (bool c) = same_sign b c
  value_eq (bool b) (num n) = number_eq (bool_number b) n
  value_eq (num n) (bool b) = number_eq n (bool_number b)
  value_eq (num n) (num m) = number_eq n m
  value_eq (str s) (str t) = s == t
  value_eq (arr vs) (arr ws) = items_eq vs ws
  value_eq (obj fs) (obj gs) = nat_eq (fields_length fs) (fields_length gs) && fields_in fs gs
  value_eq _ _ = false

  pub items_eq : Items → Items → Bool
  items_eq nil nil = true
  items_eq (cons v vs) (cons w ws) = value_eq v w && items_eq vs ws
  items_eq _ _ = false

  pub fields_in : Fields → Fields → Bool
  fields_in end gs = true
  fields_in (field k v fs) gs =
      holds_some (value_eq v) (Dict.lookup k (entries gs)) && fields_in fs gs

-- `v in w`, by the type of `w`
unfoldable pub contained : Value → Value → Result Bool
unfolding value_eq
contained v (arr vs) = ok (any (value_eq v) (items vs))
contained (str s) (str t) = ok (has_text t s)
contained v (obj fs) =
    if is_hashable v
    then ok (any (value_eq v) (keys (entries fs)))
    else err (python_error "TypeError")
contained v _ = err (python_error "TypeError")
