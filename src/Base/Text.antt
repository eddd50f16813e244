-- ===== src/Base/Text.antt =====
-- The string methods of Python that the service calls. Case is changed for the ASCII letters.
use Prim.Native.Nat.{ℕ, zero, suc, compare, Ordering}
use Prim.Native.Char.{Char, code}
use Prim.Native.String.{String, [], ◌∷◌}
use mathlib.Core.Path.{◌≡◌, refl, sym, ap, ◌∙◌}
use mathlib.Core.Logic.{inl, inr}
use text.Mathlib.TextEquality.{eq_iff}
use text.Mathlib.TextLemmas.{nil-append, cons-append}
use mathlib.Core.Bool.{Bool, true, false, ◌&&◌, ◌||◌}
use mathlib.Core.List.{List}
use text.Mathlib.Text.{◌==◌, starts_with}
use unison_capabilities.Base.Tests.{leb, Bool-cases, if◌then◌else◌}

same_code : ℕ → ℕ → Bool
same_code a b = elim (compare a b) [ Ordering.eq ↦ true | _ ↦ false ]

between : ℕ → ℕ → ℕ → Bool
between lo hi c = leb lo c && leb c hi

-- `str.isspace` of one character
unfoldable pub is_space : Char → Bool
unfolding between same_code
is_space ch =
    let c = code ch in
    between 9 13 c
    || between 28 32 c
    || same_code 133 c
    || same_code 160 c
    || same_code 5760 c
    || between 8192 8202 c
    || same_code 8232 c
    || same_code 8233 c
    || same_code 8239 c
    || same_code 8287 c
    || same_code 12288 c

unfoldable pub lstrip : String → String
unfolding is_space
lstrip [] = []
lstrip (c ∷ s) = let rest = lstrip s in if is_space c then rest else c ∷ s

unfoldable pub rstrip : String → String
unfolding is_space
rstrip [] = []
rstrip (c ∷ s) = let rest = rstrip s in if is_space c && rest == "" then "" else c ∷ rest

-- `s.strip()`
unfoldable pub strip : String → String
unfolding lstrip rstrip
strip s = rstrip (lstrip s)

-- the letter that stands in `to` where `c` stands in `from`
translate : String → String → Char → Char
unfolding same_code
translate [] to c = c
translate (f ∷ from) [] c = c
translate (f ∷ from) (t ∷ to) c =
    let rest = translate from to c in if same_code (code f) (code c) then t else rest

map_chars : (Char → Char) → String → String
map_chars f [] = []
map_chars f (c ∷ s) = f c ∷ map_chars f s

-- `s.lower()`
unfoldable pub lower : String → String
unfolding translate map_chars
lower = map_chars (translate "ABCDEFGHIJKLMNOPQRSTUVWXYZ" "abcdefghijklmnopqrstuvwxyz")

-- `s.upper()`
unfoldable pub upper : String → String
unfolding translate map_chars
upper = map_chars (translate "abcdefghijklmnopqrstuvwxyz" "ABCDEFGHIJKLMNOPQRSTUVWXYZ")

-- `s.endswith(t)`
unfoldable pub ends_with : String → String → Bool
ends_with [] t = "" == t
ends_with (c ∷ s) t = (c ∷ s) == t || ends_with s t

-- A text that ends in another is that text after some first part.
pub ends_with-append :
    (s t : String) → ends_with s t ≡ true → (p : String) × (s ≡ Prim.Native.String.◌++◌ p t)
unfolding ends_with
ends_with-append [] t h = ("", (eq_iff "" t).0 h ∙ sym (nil-append t))
ends_with-append (c ∷ s) t h = elim (Bool-cases ((c ∷ s) == t)) [
  | inl whole ↦ ("", (eq_iff (c ∷ s) t).0 whole ∙ sym (nil-append t))
  | inr later ↦
      let (p, e) = ends_with-append s t (rw later at h) in
      (c ∷ p, ap (λ u. c ∷ u) e ∙ sym (cons-append c p t))
]

-- `t in s`
unfoldable pub has_text : String → String → Bool
has_text [] t = "" == t
has_text (c ∷ s) t = starts_with (c ∷ s) t || has_text s t

-- `s[1:]`
unfoldable pub tail_text : String → String
tail_text [] = []
tail_text (c ∷ s) = s

-- `s[:n]`
unfoldable pub take_text : ℕ → String → String
take_text zero s = []
take_text (suc n) [] = []
take_text (suc n) (c ∷ s) = c ∷ take_text n s

-- `s[n:]`
unfoldable pub drop_text : ℕ → String → String
drop_text zero s = s
drop_text (suc n) [] = []
drop_text (suc n) (c ∷ s) = drop_text n s

-- the pieces of `s.split(sep)` for a separator of one character; `part` is read so far, reversed
split_from : ℕ → String → String → List String
unfolding same_code
split_from sep part [] = List.◌∷◌ part List.[]
split_from sep part (c ∷ s) =
    let here = List.◌∷◌ part (split_from sep [] s) in
    let on = split_from sep (Prim.Native.String.◌++◌ part (c ∷ [])) s in
    if same_code sep (code c) then here else on

-- the two parts of `s.split(sep, 1)` for a separator of one character that is in the text
unfoldable pub before_char : ℕ → String → String
unfolding same_code
before_char sep [] = []
before_char sep (c ∷ s) =
    let rest = before_char sep s in if same_code sep (code c) then [] else c ∷ rest

unfoldable pub after_char : ℕ → String → String
unfolding same_code
after_char sep [] = []
after_char sep (c ∷ s) = let rest = after_char sep s in if same_code sep (code c) then s else rest

-- `s.replace("\x00", " ")`
unfoldable pub nul_to_space : String → String
nul_to_space [] = []
nul_to_space (c ∷ s) =
    let rest = nul_to_space s in
    elim (code c) [ zero ↦ Prim.Native.String.◌++◌ " " rest | suc n ↦ c ∷ rest ]

-- the word that is read so far in front of the rest, unless it is empty
abbrev pub word_then : String → List String → List String
word_then word ws = if word == "" then ws else List.◌∷◌ word ws

abbrev pub words_from : String → String → List String
words_from word [] = word_then word List.[]
words_from word (c ∷ s) =
    let next = word_then word (words_from "" s) in
    let on = words_from (Prim.Native.String.◌++◌ word (c ∷ [])) s in if is_space c then next else on

-- `s.split()`
unfoldable pub words : String → List String
words s = words_from "" s

-- `[x.strip() for x in s.split(",") if x.strip()]`
strip_all : List String → List String
unfolding strip
strip_all List.[] = List.[]
strip_all (List.◌∷◌ x xs) =
    let rest = strip_all xs in if strip x == "" then rest else List.◌∷◌ (strip x) rest

unfoldable pub split_csv : String → List String
unfolding split_from strip_all
split_csv s = strip_all (split_from 44 [] s)

-- `s in {…}` and `s in […]`
unfoldable pub member : String → List String → Bool
member s List.[] = false
member s (List.◌∷◌ x xs) = s == x || member s xs

split_csv_test : split_csv " local, verified,, " ≡ List.◌∷◌ "local" (List.◌∷◌ "verified" List.[])
unfolding split_csv
split_csv_test = refl

lower_test : lower " ABz-é" ≡ " abz-é"
unfolding lower
lower_test = refl

ends_with_test : (ends_with "a.example.com" ".com" ≡ true) × (has_text "a..b" ".." ≡ true)
unfolding ends_with has_text
ends_with_test = (refl, refl)
