-- ===== src/Exec/Within.antt =====
-- Actions whose effect stays within a relation between the state before and the state after,
-- whether they return or raise: one rule for each way to build an action.
use unison_capabilities.Base.{◌≡◌, refl, Bool, true, false, if◌then◌else◌}
use unison_capabilities.Error.{Error, Result, ok, err}
use unison_capabilities.Exec.{
  Exec, pure, raise, lift, gets, reads, modify, ignore, continue, ◌>>=◌, ◌>>◌,
}

pub record Preorder {ℓ} {S : Type ℓ} (R : S → S → Type ℓ) : Type ℓ where
  pub reflexive : (s : S) → R s s
  pub transitive : (s t u : S) → R s t → R t u → R s u

pub record Within {ℓ} {S A : Type ℓ} (R : S → S → Type ℓ) (m : Exec S A) : Type ℓ where
  pub at : (s : S) → R s (m s).1

module _ {ℓ} {S A : Type ℓ} {R : S → S → Type ℓ} where
  pub Within-lift : Preorder R → (r : Result A) → Within R (lift r)
  Within-lift p r = record { at = p.reflexive }

  pub Within-pure : Preorder R → (a : A) → Within R (pure a)
  Within-pure p a = record { at = p.reflexive }

  pub Within-raise : Preorder R → (e : Error) → Within R (raise {A = A} e)
  Within-raise p e = record { at = p.reflexive }

  pub Within-gets : Preorder R → (f : S → A) → Within R (gets f)
  Within-gets p f = record { at = p.reflexive }

  pub Within-reads : Preorder R → (f : S → Result A) → Within R (reads f)
  Within-reads p f = record { at = p.reflexive }

  pub Within-if :
      (b : Bool) (m n : Exec S A) → Within R m → Within R n → Within R (if b then m else n)
  Within-if true m n km kn = km
  Within-if false m n km kn = kn

  pub Within-ignore : (m : Exec S A) → Within R m → Within R (ignore m)
  Within-ignore m km = record { at = km.at }

pub Within-modify {ℓ} :
    {S : Type ℓ} {R : S → S → Type ℓ} (f : S → S) → ((s : S) → R s (f s)) → Within R (modify f)
Within-modify f h = record { at = h }

module _ {ℓ} {S A B : Type ℓ} {R : S → S → Type ℓ} (p : Preorder R) where
  Within-continue :
      (s t : S) (r : Result A) (f : A → Exec S B)
      → R s t
      → ((a : A) → Within R (f a))
      → R s (continue r t f).1
  Within-continue s t (ok a) f h kf = p.transitive s t (f a t).1 h ((kf a).at t)
  Within-continue s t (err e) f h kf = h

  pub Within-bind :
      (m : Exec S A) (f : A → Exec S B)
      → Within R m
      → ((a : A) → Within R (f a))
      → Within R (m >>= f)
  Within-bind m f km kf = record { at = λ s. Within-continue s (m s).1 (m s).0 f (km.at s) kf }

module _ {S : Type 0} {R : S → S → Type 0} (order : Preorder R) where
  -- a call after a check: it is made only if the check returned
  pub Within-checked :
      {A : Type 0} (check : Result (Unit {0})) (m : Exec S A)
      → (check ≡ ok tt → Within R m)
      → Within R (lift check >> m)
  Within-checked (err e) m km = record { at = order.reflexive }
  Within-checked (ok u) m km = record { at = (km refl).at }

  -- a call on the value that a check returned
  pub Within-given :
      {A B : Type 0} (r : Result A) (f : A → Exec S B)
      → ((a : A) → r ≡ ok a → Within R (f a))
      → Within R (lift r >>= f)
  Within-given (err e) f k = record { at = order.reflexive }
  Within-given (ok a) f k = record { at = (k a refl).at }

pub ruleset within_rules = (
  Within-lift, Within-pure, Within-raise, Within-gets, Within-reads, Within-if, Within-ignore,
  Within-modify, Within-bind,
)
