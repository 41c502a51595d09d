-- ===== src/Prelude/Text.antt =====
-- Text as its bytes, for the strings that the program formats and compares: comparison, decimal
-- printing of a `u16` (Rust's `{}`), and reading a number back.
use Prim.Native.Nat.{ℕ, zero, suc, ◌+◌, ◌-◌, ◌*◌, ◌/◌, ◌%◌, ◌^◌, ◌<◌, ◌≤◌}
use Prim.Native.Char.{code}
use Prim.Native.String.{String}
use mathlib.Core.Path.{◌≡◌, refl, ap, sym, ◌∙◌}
use mathlib.Core.Logic.{◌↔◌, ◌⊎◌, inl, inr}
use mathlib.Core.Bool.{Bool, true, false, ◌&&◌}
use mathlib.Core.List.{List, [], ◌∷◌, ◌++◌, append_assoc, append-nil}
use native.Mathlib.Omega.{arith}
use dante_babel_box.Prelude.Tests.{ltb, leb, ◌==◌, if◌then◌else◌, tests, Bool-cases, ltb→lt}
use dante_babel_box.Prelude.Lists.{All, All-append}

-- The bytes of an ASCII text literal.
abbrev pub codes : String → List ℕ
codes String.[] = []
codes (String.◌∷◌ c s) = code c ∷ codes s

unfoldable pub bytes_eq : List ℕ → List ℕ → Bool
bytes_eq [] [] = true
bytes_eq [] (y ∷ ys) = false
bytes_eq (x ∷ xs) [] = false
bytes_eq (x ∷ xs) (y ∷ ys) = x == y && bytes_eq xs ys

pub bytes_eq_iff : (xs ys : List ℕ) → (bytes_eq xs ys ≡ true) ↔ (xs ≡ ys)
unfolding bytes_eq
bytes_eq_iff [] [] = ground arith
bytes_eq_iff [] (y ∷ ys) = ground arith
bytes_eq_iff (x ∷ xs) [] = ground arith
bytes_eq_iff (x ∷ xs) (y ∷ ys) = ground (arith, bytes_eq_iff xs ys)

pub bytes_eq_refl : (xs : List ℕ) → bytes_eq xs xs ≡ true
bytes_eq_refl xs = (bytes_eq_iff xs xs).1 refl

-- The decimal digits of a number below 10 ^ fuel.
unfoldable pub decimal_from : ℕ → ℕ → List ℕ
decimal_from zero n = []
decimal_from (suc k) n =
    let front = decimal_from k (n / 10) in
    if ltb n 10 then (n + 48) ∷ [] else front ++ (n % 10 + 48) ∷ []

-- A `u16` has at most five digits.
unfoldable pub decimal : ℕ → List ℕ
unfolding decimal_from
decimal n = decimal_from 5 n

unfoldable pub is_digit : ℕ → Bool
is_digit b = leb 48 b && leb b 57

unfoldable pub read_number : ℕ → List ℕ → ℕ × List ℕ
read_number acc [] = (acc, [])
read_number acc (b ∷ bs) =
    let more = read_number (acc * 10 + (b - 48)) bs in if is_digit b then more else (acc, b ∷ bs)

read_digit :
    (acc d : ℕ) (rest : List ℕ)
    → d < 10
    → read_number acc ((d + 48) ∷ rest) ≡ read_number (acc * 10 + d) rest
unfolding read_number is_digit
read_digit acc d rest h = ground arith

scale : ℕ → ℕ → ℕ
scale zero n = 1
scale (suc k) n = let s = scale k (n / 10) in if ltb n 10 then 10 else s * 10

decimal_small : (k n : ℕ) → ltb n 10 ≡ true → decimal_from (suc k) n ≡ (n + 48) ∷ []
unfolding decimal_from
decimal_small k n h = rw h

decimal_large :
    (k n : ℕ)
    → ltb n 10 ≡ false
    → decimal_from (suc k) n ≡ decimal_from k (n / 10) ++ (n % 10 + 48) ∷ []
unfolding decimal_from
decimal_large k n h = rw h

scale_small : (k n : ℕ) → ltb n 10 ≡ true → scale (suc k) n ≡ 10
unfolding scale
scale_small k n h = rw h

scale_large : (k n : ℕ) → ltb n 10 ≡ false → scale (suc k) n ≡ scale k (n / 10) * 10
unfolding scale
scale_large k n h = rw h

read_number-decimal_from :
    (k acc n : ℕ) (rest : List ℕ)
    → n < 10 ^ suc k
    → read_number acc (decimal_from (suc k) n ++ rest)
      ≡ read_number (acc * scale (suc k) n + n) rest
read_number-decimal_from zero acc n rest h =
    rw (decimal_small 0 n (omega tests), scale_small 0 n (omega tests))
      (read_digit acc n rest (omega arith))
read_number-decimal_from (suc k) acc n rest h = elim (Bool-cases (ltb n 10)) [
  | inl small ↦
      rw (decimal_small (suc k) n small, scale_small (suc k) n small)
        (read_digit acc n rest (omega tests))
  | inr large ↦
      rw (decimal_large (suc k) n large, scale_large (suc k) n large)
        (rw (append_assoc (decimal_from (suc k) (n / 10)) ((n % 10 + 48) ∷ []) rest) (
          read_number-decimal_from k acc (n / 10) ((n % 10 + 48) ∷ rest) (omega arith)
          ∙ read_digit (acc * scale (suc k) (n / 10) + n / 10) (n % 10) rest (omega arith)
          ∙ ap (λ (t : ℕ). read_number t rest) (omega arith)))
]

-- A number printed before a space is read back whole.
read_number-decimal :
    (n : ℕ) (rest : List ℕ) → n < 10 ^ 5 → read_number 0 (decimal n ++ 32 ∷ rest) ≡ (n, 32 ∷ rest)
unfolding decimal
read_number-decimal n rest h =
    read_number-decimal_from 4 0 n (32 ∷ rest) h ∙ unfold read_number is_digit in ground arith

pub read_number-decimal_whole : (n : ℕ) → n < 10 ^ 5 → read_number 0 (decimal n) ≡ (n, [])
unfolding decimal
read_number-decimal_whole n h =
    ap (read_number 0) (sym (append-nil (decimal_from 5 n)))
    ∙ read_number-decimal_from 4 0 n [] h
    ∙ unfold read_number in ap (λ (v : ℕ). (v, [])) (omega arith)

abbrev pub IsDigit : ℕ → Type 0
IsDigit b = (48 ≤ b) × (b ≤ 57)

decimal_from-digits : (k n : ℕ) → All IsDigit (decimal_from k n)
decimal_from-digits zero n = unfold decimal_from in tt
decimal_from-digits (suc k) n = elim (Bool-cases (ltb n 10)) [
  | inl small ↦ rw (decimal_small k n small) ((omega arith, omega (arith, ltb→lt n 10 small)), tt)
  | inr large ↦ rw (decimal_large k n large) (
      All-append IsDigit (decimal_from k (n / 10)) ((n % 10 + 48) ∷ [])
        (decimal_from-digits k (n / 10)) ((omega arith, omega arith), tt))
]

-- What is printed are digits, and there is one.
pub decimal-digits :
    (n : ℕ) → All IsDigit (decimal n) × ((b : ℕ) × (bs : List ℕ) × (decimal n ≡ b ∷ bs))
unfolding decimal
decimal-digits n = (decimal_from-digits 5 n, some_digit (Bool-cases (ltb n 10)))
  where
    first : (xs : List ℕ) (y : ℕ) → (b : ℕ) × (bs : List ℕ) × (xs ++ y ∷ [] ≡ b ∷ bs)
    first [] y = (y, [], refl)
    first (x ∷ xs) y = (x, xs ++ y ∷ [], refl)

    some_digit :
        (ltb n 10 ≡ true) ⊎ (ltb n 10 ≡ false)
        → (b : ℕ) × (bs : List ℕ) × (decimal_from 5 n ≡ b ∷ bs)
    some_digit (inl small) = (n + 48, [], decimal_small 4 n small)
    some_digit (inr large) =
        let (b, bs, e) = first (decimal_from 4 (n / 10)) (n % 10 + 48) in
        (b, bs, decimal_large 4 n large ∙ e)

-- Printing is injective: equal texts `decimal m ++ " " ++ r` come from equal parts.
pub decimal_inj :
    (m n : ℕ) (r s : List ℕ)
    → m < 10 ^ 5
    → n < 10 ^ 5
    → decimal m ++ 32 ∷ r ≡ decimal n ++ 32 ∷ s
    → (m ≡ n) × (r ≡ s)
decimal_inj m n r s hm hn e = ground (
  arith,
  read_number-decimal m r hm,
  read_number-decimal n s hn,
  ap (λ (t : List ℕ). read_number 0 t) e,
)
