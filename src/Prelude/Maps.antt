-- ===== src/Prelude/Maps.antt =====
-- A hash map as an association list with one entry for each key, over a key comparison.
use mathlib.Core.Path.{◌≡◌, refl}
use mathlib.Core.Logic.{◌↔◌}
use mathlib.Core.Bool.{Bool, true}
use mathlib.Core.Option.{Option, none, some}
use mathlib.Core.List.{List, [], ◌∷◌}
use native.Mathlib.Omega.{arith}
use dante_babel_box.Prelude.Tests.{if◌then◌else◌}

module _ {K V : Type 0} (keq : K → K → Bool) where
  unfoldable pub lookup : K → List (K × V) → Option V
  lookup wanted [] = none
  lookup wanted ((key, value) ∷ entries) =
      if keq key wanted then some value else lookup wanted entries

  unfoldable pub insert : K → V → List (K × V) → List (K × V)
  insert new value [] = (new, value) ∷ []
  insert new value ((key, old) ∷ entries) =
      if keq key new then (new, value) ∷ entries else (key, old) ∷ insert new value entries

  unfoldable pub remove : K → List (K × V) → List (K × V)
  remove gone [] = []
  remove gone ((key, value) ∷ entries) =
      let rest = remove gone entries in if keq key gone then rest else (key, value) ∷ rest

  module _ (keq_iff : (a b : K) → (keq a b ≡ true) ↔ (a ≡ b)) where
    pub lookup-insert :
        (k j : K) (v : V) (m : List (K × V))
        → lookup j (insert k v m) ≡ (if keq k j then some v else lookup j m)
    unfolding lookup insert
    lookup-insert k j v [] = refl
    lookup-insert k j v ((i, w) ∷ m) =
        ground (arith, keq_iff k j, keq_iff i k, keq_iff i j, lookup-insert k j v m)

    pub lookup-remove :
        (k j : K) (m : List (K × V))
        → lookup j (remove k m) ≡ (if keq k j then none else lookup j m)
    unfolding lookup remove
    lookup-remove k j [] = ground arith
    lookup-remove k j ((i, w) ∷ m) =
        ground (arith, keq_iff k j, keq_iff i k, keq_iff i j, lookup-remove k j m)
