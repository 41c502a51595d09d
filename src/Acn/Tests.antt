-- ===== src/Acn/Tests.antt =====
-- Walking a block of two PDUs, of which the second leaves its vector and header out.
use dante_babel_box.Prelude.{none, some, [], ◌∷◌, ◌≡◌, refl, arith}
use dante_babel_box.Acn.{walk, walk_pdus}
use dante_babel_box.Acn.Walking.{Item, write_items, pdus_of, walk_pdus-write_items}
use dante_babel_box.Acn.Fuel.{walk_enough}

abbrev first : Item
first = record { vector = some (4 ∷ []); header = some (2 ∷ []); data_octets = some (1 ∷ 0 ∷ []) }

abbrev second : Item
second = record { vector = none; header = none; data_octets = some (7 ∷ []) }

written : write_items (first ∷ second ∷ []) ≡ 112 ∷ 6 ∷ 4 ∷ 2 ∷ 1 ∷ 0 ∷ 16 ∷ 3 ∷ 7 ∷ []
unfolding write_items
written = refl

walk_pdus-write_items_example :
    walk_pdus (write_items (first ∷ second ∷ [])) 1 1 ≡ pdus_of [] [] (first ∷ second ∷ [])
walk_pdus-write_items_example = walk_pdus-write_items 1 1 (first ∷ second ∷ []) (
  record { vector = refl; header = refl; short = omega arith },
  (record { vector = tt; header = tt; short = omega arith }, tt),
)

walk_enough_example :
    walk 20 1 1 [] [] (112 ∷ 6 ∷ 4 ∷ 2 ∷ 1 ∷ 0 ∷ [])
    ≡ walk 6 1 1 [] [] (112 ∷ 6 ∷ 4 ∷ 2 ∷ 1 ∷ 0 ∷ [])
walk_enough_example =
    walk_enough 6 20 1 1 [] [] (112 ∷ 6 ∷ 4 ∷ 2 ∷ 1 ∷ 0 ∷ []) (omega arith) (omega arith)
