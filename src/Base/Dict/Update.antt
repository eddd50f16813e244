-- ===== src/Base/Dict/Update.antt =====
-- Refilling an empty dict with the entries of another gives that dict, order included.
use mathlib.Core.List.{append-nil, append_assoc, ◌++◌}
use Prim.Native.String.{String}
use mathlib.Core.Path.{◌≡◌, refl, sym, ◌∙◌}
use mathlib.Core.Option.{none}
use mathlib.Core.List.{[], ◌∷◌}
use native.Mathlib.Omega.{arith}
use text.Mathlib.TextEquality.{eq_iff}
use unison_capabilities.Base.Dict.{Dict, lookup, insert, update, NodupKeys, lookup-insert}

module _ {ℓ} {V : Type ℓ} where
  -- None of the keys of the second dict stands in the first.
  abbrev AreFresh : Dict V → Dict V → Type ℓ
  AreFresh out [] = Unit
  AreFresh out ((k, v) ∷ d) = (lookup k out ≡ none) × AreFresh out d

  insert_new :
      (k : String) (v : V) (d : Dict V) → lookup k d ≡ none → insert k v d ≡ d ++ (k, v) ∷ []
  unfolding insert lookup
  insert_new k v [] h = refl
  insert_new k v ((j, w) ∷ d) h = ground (arith, insert_new k v d)

  -- The later of two entries under one key stays.
  pub insert-insert : (k : String) (v w : V) (d : Dict V) → insert k v (insert k w d) ≡ insert k v d
  unfolding insert
  insert-insert k v w [] = ground (arith, eq_iff k k)
  insert-insert k v w ((j, u) ∷ d) = ground (arith, eq_iff k k, insert-insert k v w d)

  insert-AreFresh :
      (k : String) (v : V) (out d : Dict V)
      → lookup k d ≡ none
      → AreFresh out d
      → AreFresh (insert k v out) d
  unfolding lookup
  insert-AreFresh k v out [] h f = tt
  insert-AreFresh k v out ((j, w) ∷ d) h (here, f) =
      ground (arith, lookup-insert j k v out, insert-AreFresh k v out d, eq_iff j k, eq_iff k j)

  update_fresh : (out d : Dict V) → NodupKeys d → AreFresh out d → update out d ≡ out ++ d
  unfolding update
  update_fresh out [] u f = sym (append-nil out)
  update_fresh out ((k, v) ∷ d) (new, u) (here, f) =
      update_fresh (insert k v out) d u (insert-AreFresh k v out d new f)
      ∙ (rw (insert_new k v out here) (append_assoc out ((k, v) ∷ []) d))

  empty_fresh : (d : Dict V) → AreFresh [] d
  unfolding lookup
  empty_fresh [] = tt
  empty_fresh ((k, v) ∷ d) = (refl, empty_fresh d)

  pub update-nil : (d : Dict V) → NodupKeys d → update [] d ≡ d
  update-nil d u = update_fresh [] d u (empty_fresh d)
