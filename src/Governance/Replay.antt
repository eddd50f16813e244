-- ===== src/Governance/Replay.antt =====
-- The replay guard of src/governance.py over any sequence of requests.
use unison_capabilities.Base.{
  String, ◌≡◌, refl, ◌↔◌, inl, inr, true, false, ◌||◌, List, [], ◌∷◌, arith, eq_iff, member,
  Bool-cases, if◌then◌else◌,
}
use unison_capabilities.Error.{is_ok}
use unison_capabilities.Governance.{ReplayGuard, fresh_guard, consume}

-- The guard after a sequence of calls, and the nonces of those that returned, oldest first.
abbrev pub consume_all : List String → ReplayGuard → List String × ReplayGuard
consume_all [] guard = ([], guard)
consume_all (n ∷ ns) guard =
    let (result, next) = consume n guard in
    let (later, final) = consume_all ns next in (if is_ok result then n ∷ later else later, final)

-- No string stands twice.
abbrev pub AllDistinct : List String → Type 0
AllDistinct [] = Unit
AllDistinct (x ∷ xs) = (member x xs ≡ false) × AllDistinct xs

-- What was seen is not accepted again, and nothing is accepted twice.
accepted_lem :
    (ns : List String) (guard : ReplayGuard)
    → ((n : String) → member n guard.seen ≡ true → member n (consume_all ns guard).0 ≡ false)
      × AllDistinct (consume_all ns guard).0
unfolding consume member
accepted_lem [] guard = ((λ n h. refl), tt)
accepted_lem (n ∷ ns) guard = elim (Bool-cases (member n guard.seen)) [
  | inl old ↦ rw old (accepted_lem ns guard)
  | inr new ↦
      let (later, distinct) = accepted_lem ns (record guard { seen = n ∷ guard.seen }) in
      rw new (
        λ m seen. ground (arith, later m, eq_iff m n),
        (later n (ground (arith, eq_iff n n)), distinct),
      )
]

seen_lem :
    (m : String) (ns : List String) (guard : ReplayGuard)
    → member m (consume_all ns guard).1.seen ≡ (member m guard.seen || member m ns)
unfolding consume member
seen_lem m [] guard = ground arith
seen_lem m (n ∷ ns) guard =
    ground (
      arith,
      eq_iff m n,
      seen_lem m ns guard,
      seen_lem m ns (record guard { seen = n ∷ guard.seen }),
    )

-- A call returns exactly when its nonce was not consumed before.
pub consume_iff :
    (ns : List String) (n : String)
    → (is_ok (consume n (consume_all ns fresh_guard).1).0 ≡ true) ↔ (member n ns ≡ false)
unfolding consume member
consume_iff ns n = ground (arith, seen_lem n ns fresh_guard)

-- Whatever nonces are sent in whatever order, none is accepted twice.
pub accepted_distinct : (ns : List String) → AllDistinct (consume_all ns fresh_guard).0
accepted_distinct ns = (accepted_lem ns fresh_guard).1
