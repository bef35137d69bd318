-- ===== src/Prelude/Assoc.antt =====
-- A `HashMap`, as an association list over keys with a decidable equality.
use mathlib.Core.Path.{◌≡◌, refl}
use mathlib.Core.Logic.{◌≢◌}
use mathlib.Core.Option.{Option, none, some}
use mathlib.Core.List.{List, [], ◌∷◌}
use native.Mathlib.Omega.{arith}
use near_fetch.Prelude.Tests.{if◌then◌else◌, holds}

module _ {ℓ} {K V : Type ℓ} (dec : Discrete K) where
  abbrev pub lookup : K → List (K × V) → Option V
  lookup k [] = none
  lookup k ((j, v) ∷ m) = if holds (dec k j) then some v else lookup k m

  -- Replaces the value of a key that is there.
  abbrev pub insert : K → V → List (K × V) → List (K × V)
  insert k v [] = (k, v) ∷ []
  insert k v ((j, w) ∷ m) = if holds (dec k j) then (j, v) ∷ m else (j, w) ∷ insert k v m

  -- Removes every entry of the key.
  abbrev pub remove : K → List (K × V) → List (K × V)
  remove k [] = []
  remove k ((j, w) ∷ m) = if holds (dec k j) then remove k m else (j, w) ∷ remove k m

  pub lookup-insert_self : (k : K) (v : V) (m : List (K × V)) → lookup k (insert k v m) ≡ some v
  lookup-insert_self k v [] = ground arith
  lookup-insert_self k v ((j, w) ∷ m) = ground (arith, lookup-insert_self k v m)

  pub lookup-insert_ne :
      (q k : K) (v : V) (m : List (K × V)) → q ≢ k → lookup q (insert k v m) ≡ lookup q m
  lookup-insert_ne q k v [] h = ground arith
  lookup-insert_ne q k v ((j, w) ∷ m) h = ground (arith, lookup-insert_ne q k v m h)

  pub lookup-remove_self : (k : K) (m : List (K × V)) → lookup k (remove k m) ≡ none
  lookup-remove_self k [] = refl
  lookup-remove_self k ((j, w) ∷ m) = ground (arith, lookup-remove_self k m)

  pub lookup-remove_ne : (q k : K) (m : List (K × V)) → q ≢ k → lookup q (remove k m) ≡ lookup q m
  lookup-remove_ne q k [] h = refl
  lookup-remove_ne q k ((j, w) ∷ m) h = ground (arith, lookup-remove_ne q k m h)
