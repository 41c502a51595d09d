-- ===== src/Prelude/Bytes.antt =====
-- Bytes as numbers, and Rust's `to_be_bytes` and `from_be_bytes` for an unsigned integer of `k` bytes.
use Prim.Native.Nat.{ℕ, zero, suc, ◌+◌, ◌*◌, ◌/◌, ◌%◌, ◌^◌, ◌<◌}
use mathlib.Core.Path.{◌≡◌, refl, ◌∙◌}
use mathlib.Core.List.{List, [], ◌∷◌, ◌++◌}
use native.Mathlib.Omega.{arith}
use dante_babel_box.Prelude.Lists.{length, length-append, All, All-append}

abbrev pub IsByte : ℕ → Type 0
IsByte b = b < 256

-- `v.to_be_bytes()` of a `k`-byte integer: most significant byte first.
unfoldable pub to_be : ℕ → ℕ → List ℕ
to_be zero v = []
to_be (suc k) v = to_be k (v / 256) ++ (v % 256) ∷ []

unfoldable pub of_be_from : ℕ → List ℕ → ℕ
of_be_from acc [] = acc
of_be_from acc (b ∷ bs) = of_be_from (acc * 256 + b) bs

-- `from_be_bytes`
unfoldable pub of_be : List ℕ → ℕ
unfolding of_be_from
of_be bs = of_be_from 0 bs

pub length-to_be : (k v : ℕ) → length (to_be k v) ≡ k
unfolding to_be
length-to_be zero v = refl
length-to_be (suc k) v =
    omega (arith, length-append (to_be k (v / 256)) ((v % 256) ∷ []), length-to_be k (v / 256))

pub to_be-IsByte : (k v : ℕ) → All IsByte (to_be k v)
unfolding to_be
to_be-IsByte zero v = tt
to_be-IsByte (suc k) v =
    All-append IsByte (to_be k (v / 256)) ((v % 256) ∷ []) (to_be-IsByte k (v / 256))
      (omega arith, tt)

of_be_from-append :
    (acc : ℕ) (xs : List ℕ) (b : ℕ) → of_be_from acc (xs ++ b ∷ []) ≡ of_be_from acc xs * 256 + b
unfolding of_be_from
of_be_from-append acc [] b = refl
of_be_from-append acc (x ∷ xs) b = of_be_from-append (acc * 256 + x) xs b

-- A value that fits the width survives the trip over the wire.
pub of_be-to_be : (k v : ℕ) → v < 256 ^ k → of_be (to_be k v) ≡ v
unfolding of_be to_be of_be_from
of_be-to_be zero v h = omega arith
of_be-to_be (suc k) v h =
    of_be_from-append 0 (to_be k (v / 256)) (v % 256)
    ∙ omega (arith, of_be-to_be k (v / 256) (omega arith))
