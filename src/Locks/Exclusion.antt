-- ===== src/Locks/Exclusion.antt =====
-- The sections of src/locks.py exclude one another.
use unison_capabilities.Base.{
  ℕ, ◌≡◌, ◌≢◌, refl, sym, ap, ◌∙◌, inl, inr, Option, none, some, List, [], ◌∷◌, arith, Bool-cases,
}
use unison_capabilities.Locks.{
  Section, shared, exclusive, Mode, lock_sh, lock_ex, Call, open_path, flock, body, flock_un,
  close_file, flock_of, calls_of, Shared, same, set, at_call, Inside, Step, enter, opens, locks,
  fails, leaves, unlocks, closes, write, Reach, at_start, after,
}

-- What is documented of `flock`: a shared lock is granted where no other open file holds an
-- exclusive one, an exclusive lock where no other holds any.
abbrev pub Free : (ℕ → Option Mode) → ℕ → Mode → Type 0
Free held i lock_sh = (j : ℕ) → i ≢ j → held j ≢ some lock_ex
Free held i lock_ex = (j : ℕ) → i ≢ j → held j ≡ none

-- The lock that the body of a section relies on.
abbrev pub Suffices : Section → Option Mode → Type 0
Suffices shared h = (m : Mode) × (h ≡ some m)
Suffices exclusive h = h ≡ some lock_ex

holds_lock : (h : Option Mode) (section : Section) → Suffices section h → (m : Mode) × (h ≡ some m)
holds_lock h shared s = s
holds_lock h exclusive s = (lock_ex, s)

-- With this lock held, the calls reach each body with one that suffices.
abbrev AreCovered : Option Mode → List Call → Type 0
AreCovered h [] = Unit
AreCovered h (open_path ∷ r) = AreCovered h r
AreCovered h (flock m ∷ r) = AreCovered (some m) r
AreCovered h (body section ∷ r) = Suffices section h × AreCovered h r
AreCovered h (flock_un ∷ r) = AreCovered none r
AreCovered h (close_file ∷ r) = AreCovered none r

calls-AreCovered : (section : Section) (h : Option Mode) → AreCovered h (calls_of section)
unfolding calls_of flock_of
calls-AreCovered shared h = ((lock_sh, refl), tt)
calls-AreCovered exclusive h = (refl, tt)

-- An exclusive lock stands alone.
abbrev StandsAlone : (ℕ → Option Mode) → Type 0
StandsAlone held = (i j : ℕ) (m : Mode) → held i ≡ some lock_ex → held j ≡ some m → i ≡ j

set_same : {A : Type 0} (i : ℕ) (f : ℕ → A) (j : ℕ) → set i (f i) f j ≡ f j
unfolding set
set_same i f j = elim (Bool-cases (same i j)) [
  | inl here ↦ let e : i ≡ j = ground arith in rw here (ap f e)
  | inr other ↦ rw other refl
]

released : (held : ℕ → Option Mode) (k : ℕ) → StandsAlone held → StandsAlone (set k none held)
unfolding set
released held k alone i j m hi hj = ground (arith, alone i j m)

kept : (held : ℕ → Option Mode) (k : ℕ) → StandsAlone held → StandsAlone (set k (held k) held)
kept held k alone i j m hi hj =
    alone i j m (sym (set_same k held i) ∙ hi) (sym (set_same k held j) ∙ hj)

granted :
    (held : ℕ → Option Mode) (k : ℕ) (m : Mode)
    → Free held k m
    → StandsAlone held
    → StandsAlone (set k (some m) held)
unfolding set
granted held k lock_sh free alone i j m hi hj = ground (arith, free i, free j, alone i j m)
granted held k lock_ex free alone i j m hi hj = ground (arith, free i, free j, alone i j m)

module _ {Store : Type 0} where
  -- Each use is covered in what it has yet to do, and an exclusive lock stands alone.
  record IsSound (w : Shared Store) : Type 0 where
    covered : (i : ℕ) → AreCovered (w.held i) (w.rest i)
    alone : StandsAlone w.held

  at_call-IsCovered :
      (w : Shared Store) (k : ℕ) (r : List Call) (h : Option Mode)
      → IsSound w
      → AreCovered h r
      → (i : ℕ) → AreCovered ((at_call w k r h).held i) ((at_call w k r h).rest i)
  unfolding set
  at_call-IsCovered w k r h sound here i = elim (Bool-cases (same k i)) [
    | inl e ↦ rw e here
    | inr e ↦ rw e (sound.covered i)
  ]

  next :
      (w : Shared Store) (k : ℕ) (c : Call) (r : List Call)
      → IsSound w
      → w.rest k ≡ c ∷ r
      → AreCovered (w.held k) (c ∷ r)
  next w k c r sound e = rw e at (sound.covered k)

  -- No two uses are inside sections of which one is exclusive.
  abbrev pub IsExclusive : Shared Store → Type 0
  IsExclusive w = (i j : ℕ) (section : Section) → Inside w i exclusive → Inside w j section → i ≡ j

  sound-IsExclusive : (w : Shared Store) → IsSound w → IsExclusive w
  sound-IsExclusive w sound i j section (r, hi) (q, hj) =
      let (m, other) = holds_lock (w.held j) section (next w j (body section) q sound hj).0 in
      sound.alone i j m (next w i (body exclusive) r sound hi).0 other

module _ {Store : Type 0} (Granted : (ℕ → Option Mode) → ℕ → Mode → Type 0)
    (os_flock : (held : ℕ → Option Mode) (i : ℕ) (m : Mode)
      → Granted held i m
      → Free held i m) where
  Step-IsSound : {w w' : Shared Store} → Step Granted w w' → IsSound w → IsSound w'
  Step-IsSound {w} (enter i section e) s = record {
    covered = at_call-IsCovered w i _ _ s (calls-AreCovered section (w.held i));
    alone = kept w.held i s.alone;
  }
  Step-IsSound {w} (opens i r e) s = record {
    covered = at_call-IsCovered w i r _ s (next w i open_path r s e);
    alone = kept w.held i s.alone;
  }
  Step-IsSound {w} (locks i m r e g) s = record {
    covered = at_call-IsCovered w i r (some m) s (next w i (flock m) r s e);
    alone = granted w.held i m (os_flock w.held i m g) s.alone;
  }
  Step-IsSound {w} (fails i m r e) s = record {
    covered = at_call-IsCovered w i [] none s tt;
    alone = released w.held i s.alone;
  }
  Step-IsSound {w} (leaves i section r e) s = record {
    covered = at_call-IsCovered w i r _ s (next w i (body section) r s e).1;
    alone = kept w.held i s.alone;
  }
  Step-IsSound {w} (unlocks i r e) s = record {
    covered = at_call-IsCovered w i r none s (next w i flock_un r s e);
    alone = released w.held i s.alone;
  }
  Step-IsSound {w} (closes i r e) s = record {
    covered = at_call-IsCovered w i r none s (next w i close_file r s e);
    alone = released w.held i s.alone;
  }
  Step-IsSound {w} (write i new) s = record { covered = s.covered; alone = s.alone }

  Reach-IsSound : {start : Store} {w : Shared Store} → Reach Granted start w → IsSound w
  Reach-IsSound at_start = record { covered = λ i. tt; alone = λ i j m hi hj. cc }
  Reach-IsSound (after r step) = Step-IsSound step (Reach-IsSound r)

  -- Where `flock` grants its locks as documented, no reachable state has a use in the body of an
  -- exclusive section beside another in the body of a section.
  pub Reach-IsExclusive : {start : Store} {w : Shared Store} → Reach Granted start w → IsExclusive w
  Reach-IsExclusive {start} {w} r = sound-IsExclusive w (Reach-IsSound r)
