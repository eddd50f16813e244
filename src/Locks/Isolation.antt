-- ===== src/Locks/Isolation.antt =====
-- Inside a section of src/locks.py, what the lock protects is changed by no one else who writes
-- inside exclusive sections only.
use unison_capabilities.Base.{ℕ, ◌≡◌, ◌≢◌, refl, ◌∙◌, Option, [], arith}
use unison_capabilities.Locks.{
  Section, Mode, Shared, set, Inside, Step, enter, opens, locks, fails, leaves, unlocks, closes,
  write, actor, IsDisciplined, Reach, after,
}
use unison_capabilities.Locks.Exclusion.{Free, IsExclusive, Reach-IsExclusive}

set_other : {A : Type 0} (k i : ℕ) (a : A) (f : ℕ → A) → k ≢ i → set k a f i ≡ f i
unfolding set
set_other k i a f other = ground arith

module _ {Store : Type 0} (Granted : (ℕ → Option Mode) → ℕ → Mode → Type 0) where
  -- Steps of the other uses, which write inside exclusive sections only, while this one stands still.
  pub data Meanwhile (i : ℕ) (w : Shared Store) : Shared Store → Type 0 where
    nothing : Meanwhile i w w
    then_step :
        {u v : Shared Store}
        → Meanwhile i w u
        → (step : Step Granted u v) → actor Granted step ≢ i
        → IsDisciplined Granted step
        → Meanwhile i w v

  others_rest :
      (i : ℕ) {w w' : Shared Store} (step : Step Granted w w')
      → actor Granted step ≢ i
      → w'.rest i ≡ w.rest i
  others_rest i {w} (enter k section e) other = set_other k i _ w.rest other
  others_rest i {w} (opens k r e) other = set_other k i r w.rest other
  others_rest i {w} (locks k m r e g) other = set_other k i r w.rest other
  others_rest i {w} (fails k m r e) other = set_other k i [] w.rest other
  others_rest i {w} (leaves k section r e) other = set_other k i r w.rest other
  others_rest i {w} (unlocks k r e) other = set_other k i r w.rest other
  others_rest i {w} (closes k r e) other = set_other k i r w.rest other
  others_rest i {w} (write k new) other = refl

  others_store :
      (i : ℕ) (section : Section) {w w' : Shared Store} (step : Step Granted w w')
      → actor Granted step ≢ i
      → IsDisciplined Granted step
      → IsExclusive w
      → Inside w i section
      → w'.store ≡ w.store
  others_store i section (write k new) other inside ex here =
      absurd (other (ex k i section inside here))
  others_store i section (enter k s e) other inside ex here = refl
  others_store i section (opens k r e) other inside ex here = refl
  others_store i section (locks k m r e g) other inside ex here = refl
  others_store i section (fails k m r e) other inside ex here = refl
  others_store i section (leaves k s r e) other inside ex here = refl
  others_store i section (unlocks k r e) other inside ex here = refl
  others_store i section (closes k r e) other inside ex here = refl

module _ {Store : Type 0} (Granted : (ℕ → Option Mode) → ℕ → Mode → Type 0)
    (os_flock : (held : ℕ → Option Mode) (i : ℕ) (m : Mode)
      → Granted held i m
      → Free held i m) where
  still_reached :
      {start : Store} {i : ℕ} {w v : Shared Store}
      → Reach Granted start w
      → Meanwhile Granted i w v
      → Reach Granted start v
  still_reached r nothing = r
  still_reached r (then_step before step other inside) = after (still_reached r before) step

  -- While a use is in the body of a section, shared or exclusive, and the other uses do anything but
  -- write outside the body of an exclusive section, what the lock protects stays as it is, and the
  -- use stays where it is. `flock` grants its locks as documented.
  pub isolated :
      {start : Store} (i : ℕ) (section : Section) {w v : Shared Store}
      → Reach Granted start w
      → Inside w i section
      → Meanwhile Granted i w v
      → (v.store ≡ w.store) × (v.rest i ≡ w.rest i)
  isolated i section r here nothing = (refl, refl)
  isolated i section r (q, e) (then_step {u} {v} before step other inside) =
      let (same_store, still) = isolated i section r (q, e) before in
      let ex = Reach-IsExclusive Granted os_flock (still_reached r before) in
      (
        others_store Granted i section step other inside ex (q, still ∙ e) ∙ same_store,
        others_rest Granted i step other ∙ still,
      )
