-- ===== src/Exec/Returns.antt =====
-- What is known of the steps of an action that returned.
use unison_capabilities.Base.{◌≡◌, refl, ap}
use unison_capabilities.Error.{Result, ok, err}
use unison_capabilities.Exec.{Exec, lift, reads, continue, ◌>>=◌}

module _ {ℓ} {S A B : Type ℓ} where
  returned_from :
      (r : Result A) (t : S) (f : A → Exec S B) (b : B) (u : S)
      → continue r t f ≡ (ok b, u)
      → (a : A) × (r ≡ ok a) × (f a t ≡ (ok b, u))
  returned_from (ok a) t f b u h = (a, refl, h)
  returned_from (err e) t f b u h = cc

  -- Where a chain returned, so did its first step, and the rest from the state after it.
  pub returned :
      (m : Exec S A) (f : A → Exec S B) (s : S) (b : B) (u : S)
      → (m >>= f) s ≡ (ok b, u)
      → (a : A) × (t : S) × (m s ≡ (ok a, t)) × (f a t ≡ (ok b, u))
  returned m f s b u h =
      let (a, first, rest) = returned_from (m s).0 (m s).1 f b u h in
      (a, (m s).1, ap (λ r. (r, (m s).1)) first, rest)

  -- the same where the first step changes nothing
  pub returned-lift :
      (r : Result A) (f : A → Exec S B) (s : S) (b : B) (u : S)
      → (lift r >>= f) s ≡ (ok b, u)
      → (a : A) × (r ≡ ok a) × (f a s ≡ (ok b, u))
  returned-lift r f s b u h = returned_from r s f b u h

  pub returned-reads :
      (g : S → Result A) (f : A → Exec S B) (s : S) (b : B) (u : S)
      → (reads g >>= f) s ≡ (ok b, u)
      → (a : A) × (g s ≡ ok a) × (f a s ≡ (ok b, u))
  returned-reads g f s b u h = returned_from (g s) s f b u h
