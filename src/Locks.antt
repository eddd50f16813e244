-- ===== src/Locks.antt =====
-- src/locks.py: the shared and the exclusive section of a file lock, with any number of uses of it
-- interleaved. What `flock` grants is a parameter. Nothing in the lock keeps a use from writing
-- outside a section.
pub mod Exclusion
pub mod Isolation
use unison_capabilities.Base.{
  ℕ, ◌≡◌, ◌⊎◌, Bool, ◌&&◌, Option, none, some, List, [], ◌∷◌, leb, if◌then◌else◌,
}

-- The two methods of `FileLock`.
pub data Section : Type 0 where
  shared exclusive : Section

-- `LOCK_SH` and `LOCK_EX`
pub data Mode : Type 0 where
  lock_sh lock_ex : Mode

-- What a use does: the calls of the operating system, and the body of the `with`.
pub data Call : Type 0 where
  open_path : Call
  flock : Mode → Call
  body : Section → Call
  flock_un close_file : Call

unfoldable pub flock_of : Section → Mode
flock_of shared = lock_sh
flock_of exclusive = lock_ex

-- The calls of one use of a section, where none of them raises; the body may, since the unlocking is
-- in a `finally` and the closing at the end of a `with`.
unfoldable pub calls_of : Section → List Call
calls_of section = open_path ∷ flock (flock_of section) ∷ body section ∷ flock_un ∷ close_file ∷ []

-- The calls that each use has yet to make, the lock that its open file holds, and what the lock is
-- there to protect.
pub record Shared (Store : Type 0) : Type 0 where
  pub rest : ℕ → List Call
  pub held : ℕ → Option Mode
  pub store : Store

abbrev pub same : ℕ → ℕ → Bool
same i j = leb i j && leb j i

unfoldable pub set {ℓ} : {A : Type ℓ} → ℕ → A → (ℕ → A) → ℕ → A
set i a f j = if same i j then a else f j

module _ {Store : Type 0} where
  -- the state in which the use has these calls to make and holds this lock
  abbrev pub at_call : Shared Store → ℕ → List Call → Option Mode → Shared Store
  at_call w i r h = record w { rest = set i r w.rest; held = set i h w.held }

  -- The use is in the body of a section.
  abbrev pub Inside : Shared Store → ℕ → Section → Type 0
  Inside w i section = (r : List Call) × (w.rest i ≡ body section ∷ r)

module _ {Store : Type 0} (Granted : (ℕ → Option Mode) → ℕ → Mode → Type 0) where
  -- One step of one use: it enters a section, makes its next call, or fails at the opening or the
  -- locking, where the file is closed and the section left. A use may write at any time.
  pub data Step (w : Shared Store) : Shared Store → Type 0 where
    enter :
        (i : ℕ) (section : Section)
        → w.rest i ≡ []
        → Step w (at_call w i (calls_of section) (w.held i))
    opens : (i : ℕ) (r : List Call) → w.rest i ≡ open_path ∷ r → Step w (at_call w i r (w.held i))
    locks :
        (i : ℕ) (m : Mode) (r : List Call)
        → w.rest i ≡ flock m ∷ r
        → Granted w.held i m
        → Step w (at_call w i r (some m))
    fails :
        (i : ℕ) (m : Mode) (r : List Call)
        → (w.rest i ≡ open_path ∷ r) ⊎ (w.rest i ≡ flock m ∷ r)
        → Step w (at_call w i [] none)
    leaves :
        (i : ℕ) (section : Section) (r : List Call)
        → w.rest i ≡ body section ∷ r
        → Step w (at_call w i r (w.held i))
    unlocks : (i : ℕ) (r : List Call) → w.rest i ≡ flock_un ∷ r → Step w (at_call w i r none)
    closes : (i : ℕ) (r : List Call) → w.rest i ≡ close_file ∷ r → Step w (at_call w i r none)
    write : (i : ℕ) (new : Store) → Step w (record w { store = new })

  -- The use whose step it is.
  abbrev pub actor : {w w' : Shared Store} → Step w w' → ℕ
  actor (enter i section _) = i
  actor (opens i r _) = i
  actor (locks i m r _ _) = i
  actor (fails i m r _) = i
  actor (leaves i section r _) = i
  actor (unlocks i r _) = i
  actor (closes i r _) = i
  actor (write i new) = i

  -- The step writes only inside an exclusive section of its use.
  abbrev pub IsDisciplined : {w w' : Shared Store} → Step w w' → Type 0
  IsDisciplined {w} (write i new) = Inside w i exclusive
  IsDisciplined step = Unit

  -- The states that a service reaches, from a start where no one uses the lock.
  pub data Reach (start : Store) : Shared Store → Type 0 where
    at_start : Reach start (record { rest = λ i. []; held = λ i. none; store = start })
    after : {w w' : Shared Store} → Reach start w → Step w w' → Reach start w'
