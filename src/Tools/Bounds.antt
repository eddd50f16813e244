-- ===== src/Tools/Bounds.antt =====
-- How much the tools of src/seed_tools.py return.
use unison_capabilities.Base.{
  ℕ, zero, suc, ◌≤◌, String, ◌≡◌, refl, sym, ◌∙◌, false, none, some, List, [], ◌∷◌, arith,
  if◌then◌else◌,
}
use unison_capabilities.Value.{
  Value, Fields, end, field, obj, Number, num, str, decimal, get, Python, to_int, truthy,
}
use unison_capabilities.Error.{value_or, Result, ok, err}
use unison_capabilities.Exec.Returns.{returned, returned-lift}
use unison_capabilities.Tools.{
  Host, from_zero, length, take, whole, slice_to, cut, fs_read, path_argument, read_roots,
  ensure_under_roots,
}
use unison_capabilities.Tools.Processes.{ProcEntry, process_of}

abbrev or_skip : Result Value → List Value → List Value
or_skip (ok v) rest = v ∷ rest
or_skip (err e) rest = rest

-- The processes that can be read, in the order of the entries.
abbrev pub readable : List ProcEntry → List Value
readable [] = []
readable (p ∷ ps) =
    let rest = readable ps in
    elim p.pid [ none ↦ rest | some pid ↦ or_skip (process_of pid p) rest ]

length-take : {A : Type 0} (n : ℕ) (xs : List A) → length (take n xs) ≤ n
unfolding take
length-take zero xs = omega arith
length-take (suc n) [] = omega arith
length-take (suc n) (x ∷ xs) = omega (arith, length-take n xs)

module _ ⦃py : Python⦄ where
  -- the limit of bytes that a read asks for
  abbrev pub max_bytes : Fields → Result Number
  max_bytes args =
      let given = get "max_bytes" args in
      to_int (if truthy given then given else num (decimal false 65536 0))

module _ {World : Type 0} (host : Host World) where
  cut_bounded :
      (n : ℕ) (text : String)
      → ((bytes : List ℕ) → length (host.encode (host.decode bytes)) ≤ length bytes)
      → length (host.encode (cut host (from_zero n) text)) ≤ n
  unfolding cut slice_to
  cut_bounded n text shorter =
      ground (arith, shorter (take n (host.encode text)), length-take n (host.encode text))

  module _ ⦃py : Python⦄ where
    -- A read that returns gives no more bytes of the file than it asks for, which is 65536 where it
    -- does not ask, if the number is not below 0. Decoding the start of a text gives no more bytes
    -- than it was given.
    pub fs_read_bounded :
        (args : Fields) (number : Number) (n : ℕ) (s s' : World) (v : Value)
        → ((bytes : List ℕ) → length (host.encode (host.decode bytes)) ≤ length bytes)
        → max_bytes args ≡ ok number
        → whole number ≡ from_zero n
        → fs_read host args s ≡ (ok v, s')
        → (path : String) × (content : String) × (v
            ≡ obj (field "path" (str path) (field "content" (str content) end)))
          × (length (host.encode content) ≤ n)
    unfolding fs_read
    fs_read_bounded args number n s s' v shorter asked is h =
        let (path, _, h1) = returned-lift (path_argument (get "path" args)) _ s v s' h in
        let (roots, _, h2) = returned-lift (read_roots host) _ s v s' h1 in
        let (_, _, h3) = returned-lift (ensure_under_roots host path roots) _ s v s' h2 in
        let (text, t, _, h4) = returned (host.read_text path) _ s v s' h3 in
        let (m, got, h5) = returned-lift (max_bytes args) _ t v s' h4 in
        let same : m ≡ number = cc (got, asked) in
        let is_v : v
            ≡ obj (
                field "path" (str (host.shown path))
                  (field "content" (str (cut host (whole m) text)) end)) =
          λ i. value_or v (sym h5 i).0 in
        (
          host.shown path,
          cut host (from_zero n) text,
          is_v ∙ rw (same, is) refl,
          cut_bounded n text shorter,
        )
