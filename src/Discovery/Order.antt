-- ===== src/Discovery/Order.antt =====
-- The order in which src/discovery.py lists candidates.
use unison_capabilities.Base.{
  ◌≡◌, refl, inl, inr, Bool, true, false, List, [], ◌∷◌, All, arith, any, ◌||◌, Bool-cases,
}
use unison_capabilities.Discovery.{Candidate, Score, score_lt, insert_by_score, sort_by_score}

-- No later candidate has a higher score.
abbrev pub IsRanked : List Candidate → Type 0
IsRanked [] = Unit
IsRanked (c ∷ cs) = All (λ d. score_lt c.score d.score ≡ false) cs × IsRanked cs

score_lt_total : (a b : Score) → score_lt a b ≡ true → score_lt b a ≡ false
unfolding score_lt
score_lt_total a b h = ground arith

score_lt_trans :
    (a b c : Score) → score_lt a b ≡ false → score_lt b c ≡ false → score_lt a c ≡ false
unfolding score_lt
score_lt_trans a b c h k = ground arith

All-below :
    (a b : Score) (cs : List Candidate)
    → score_lt a b ≡ false
    → All (λ d. score_lt b d.score ≡ false) cs
    → All (λ d. score_lt a d.score ≡ false) cs
All-below a b [] h k = tt
All-below a b (c ∷ cs) h (k, ks) = (score_lt_trans a b c.score h k, All-below a b cs h ks)

insert-All :
    (a : Score) (c : Candidate) (cs : List Candidate)
    → score_lt a c.score ≡ false
    → All (λ d. score_lt a d.score ≡ false) cs
    → All (λ d. score_lt a d.score ≡ false) (insert_by_score c cs)
unfolding insert_by_score
insert-All a c [] h k = (h, tt)
insert-All a c (d ∷ ds) h (k, ks) = elim (Bool-cases (score_lt c.score d.score)) [
  | inl lower ↦ rw lower (k, insert-All a c ds h ks)
  | inr placed ↦ rw placed (h, (k, ks))
]

insert-IsRanked :
    (c : Candidate) (cs : List Candidate) → IsRanked cs → IsRanked (insert_by_score c cs)
unfolding insert_by_score
insert-IsRanked c [] h = (tt, tt)
insert-IsRanked c (d ∷ ds) (first, rest) = elim (Bool-cases (score_lt c.score d.score)) [
  | inl lower ↦ rw lower (
    insert-All d.score c ds (score_lt_total c.score d.score lower) first,
    insert-IsRanked c ds rest,
  )
  | inr placed ↦ rw placed ((placed, All-below c.score d.score ds placed first), (first, rest))
]

pub sort-IsRanked : (cs : List Candidate) → IsRanked (sort_by_score cs)
unfolding sort_by_score
sort-IsRanked [] = tt
sort-IsRanked (c ∷ cs) = insert-IsRanked c (sort_by_score cs) (sort-IsRanked cs)

insert_any :
    (p : Candidate → Bool) (c : Candidate) (cs : List Candidate)
    → any p (insert_by_score c cs) ≡ (p c || any p cs)
unfolding insert_by_score
insert_any p c [] = refl
insert_any p c (d ∷ ds) = ground (arith, insert_any p c ds)

-- Sorting neither loses nor adds a candidate: what holds of one holds of one before.
pub sort_any : (p : Candidate → Bool) (cs : List Candidate) → any p (sort_by_score cs) ≡ any p cs
unfolding sort_by_score
sort_any p [] = refl
sort_any p (c ∷ cs) = ground (arith, insert_any p c (sort_by_score cs), sort_any p cs)
