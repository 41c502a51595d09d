-- ===== src/Mbc/Checksum.antt =====
-- The additive checksum of the head-amp block: which slices it lets through.
use dante_babel_box.Prelude.{
  drop, ℕ, zero, suc, ◌+◌, ◌-◌, ◌%◌, ◌≤◌, ◌<◌, false, List, [], ◌∷◌, ◌++◌, ◌≡◌, ◌≢◌, ◌⊎◌, inl, inr,
  refl, sym, ◌∙◌, All, arith, length, take, get_or, ltb, ◌==◌, if◌then◌else◌, ok, err,
  length-append,
}
use dante_babel_box.Prelude.Bytes.{IsByte}
use dante_babel_box.Mbc.{
  MbcError, MbcBlock, wrapping_sum, checksum, fields, decode_exact, last_octet, but_last, shortest,
  checksum_target,
}

-- The plain sum of the octets.
unfoldable pub total : List ℕ → ℕ
total [] = 0
total (b ∷ bs) = b + total bs

total-append : (xs ys : List ℕ) → total (xs ++ ys) ≡ total xs + total ys
unfolding total
total-append [] ys = omega arith
total-append (x ∷ xs) ys = omega (arith, total-append xs ys)

wrapping_sum-total :
    (acc : ℕ) (bs : List ℕ) → acc < 256 → wrapping_sum acc bs ≡ (acc + total bs) % 256
unfolding wrapping_sum total
wrapping_sum-total acc [] h = omega arith
wrapping_sum-total acc (b ∷ bs) h =
    omega (arith, wrapping_sum-total ((acc + b) % 256) bs (omega arith))

pub checksum-total : (bs : List ℕ) → checksum bs ≡ (319 - total bs % 256) % 256
unfolding checksum
checksum-total bs = omega (arith, wrapping_sum-total 0 bs (omega arith))

total-but_last :
    (k : ℕ) (slice : List ℕ)
    → length slice ≡ suc k
    → total slice ≡ total (take k slice) + get_or slice k 0
unfolding total
total-but_last k [] h = absurd (omega arith)
total-but_last zero (x ∷ []) h = omega arith
total-but_last zero (x ∷ y ∷ ys) h = absurd (omega arith)
total-but_last (suc k) (x ∷ xs) h = omega (arith, total-but_last k xs (omega arith))

-- The comparison of `decode_exact` is one on the whole sum.
sums : (e t : ℕ) → e < 256 → (e == (319 - t % 256) % 256) ≡ ((t + e) % 256 == checksum_target)
sums e t h = ground arith

decode_exact-total :
    (slice : List ℕ)
    → shortest ≤ length slice
    → IsByte (last_octet slice)
    → decode_exact slice ≡ (
        if total slice % 256 == checksum_target
        then ok (fields slice (drop 24 (but_last slice)))
        else err (MbcError.bad_checksum (last_octet slice) (checksum (but_last slice))))
unfolding decode_exact
decode_exact-total slice h b =
    rw
      (
        long,
        checksum-total (but_last slice),
        sums (last_octet slice) (total (but_last slice)) b,
        total-but_last (length slice - 1) slice (omega arith),
      )
      refl
  where
    long : ltb (length slice) shortest ≡ false
    long = ground (arith, h)

accepted-total :
    (slice : List ℕ) (b : MbcBlock)
    → IsByte (last_octet slice)
    → decode_exact slice ≡ ok b
    → (shortest ≤ length slice) × (total slice % 256 ≡ checksum_target)
accepted-total slice b byte h = elim (le_or_lt shortest (length slice)) [
  | inr short ↦ absurd (refused short)
  | inl long ↦ (long, summed _ _ _ (sym (decode_exact-total slice long byte) ∙ h))
]
  where
    le_or_lt : (m n : ℕ) → (m ≤ n) ⊎ (n < m)
    le_or_lt m n = omega arith

    refused : length slice < shortest → ⊥
    refused short = unfold decode_exact in grind arith

    summed :
        (t : ℕ) (f : MbcBlock) (e : MbcError)
        → (if t % 256 == checksum_target then ok f else err e) ≡ ok b
        → t % 256 ≡ checksum_target
    summed t f e k = ground arith

last_octet-append :
    (xs ys : List ℕ) (x y : ℕ)
    → All IsByte (xs ++ x ∷ ys)
    → IsByte y
    → IsByte (last_octet (xs ++ x ∷ ys)) × IsByte (last_octet (xs ++ y ∷ ys))
last_octet-append xs ys x y h k =
    (byte_at (xs ++ x ∷ ys) _ h, byte_at (xs ++ y ∷ ys) _ (changed xs h))
  where
    byte_at : (zs : List ℕ) (i : ℕ) → All IsByte zs → IsByte (get_or zs i 0)
    byte_at [] i h = omega arith
    byte_at (z ∷ zs) zero h = h.0
    byte_at (z ∷ zs) (suc i) h = byte_at zs i h.1

    changed : (zs : List ℕ) → All IsByte (zs ++ x ∷ ys) → All IsByte (zs ++ y ∷ ys)
    changed [] h = (k, h.1)
    changed (z ∷ zs) h = (h.0, changed zs h.1)

-- A block that is accepted is refused for its checksum when any one of its octets, the checksum
-- included, is replaced by another octet.
pub decode_exact_corrupted :
    (xs ys : List ℕ) (x y : ℕ) (b : MbcBlock)
    → All IsByte (xs ++ x ∷ ys)
    → IsByte y
    → x ≢ y
    → decode_exact (xs ++ x ∷ ys) ≡ ok b
    → (e : ℕ) × (c : ℕ) × (decode_exact (xs ++ y ∷ ys) ≡ err (MbcError.bad_checksum e c))
unfolding total
decode_exact_corrupted xs ys x y b bytes byte differ h = (
  last_octet (xs ++ y ∷ ys),
  checksum (but_last (xs ++ y ∷ ys)),
  decode_exact-total (xs ++ y ∷ ys) long ends.1 ∙ (rw wrong refl),
)
  where
    ends : IsByte (last_octet (xs ++ x ∷ ys)) × IsByte (last_octet (xs ++ y ∷ ys))
    ends = last_octet-append xs ys x y bytes byte

    accepted : (shortest ≤ length (xs ++ x ∷ ys)) × (total (xs ++ x ∷ ys) % 256 ≡ checksum_target)
    accepted = accepted-total (xs ++ x ∷ ys) b ends.0 h

    long : shortest ≤ length (xs ++ y ∷ ys)
    long = omega (arith, accepted.0, length-append xs (x ∷ ys), length-append xs (y ∷ ys))

    old : IsByte x
    old = middle xs bytes
      where
        middle : (zs : List ℕ) → All IsByte (zs ++ x ∷ ys) → IsByte x
        middle [] h = h.0
        middle (z ∷ zs) h = middle zs h.1

    shifted :
        (s t : ℕ)
        → x < 256
        → y < 256
        → (s + (x + t)) % 256 ≡ 63
        → ((s + (y + t)) % 256 == 63) ≡ false
    shifted s t p q r = ground (arith, differ)

    wrong : (total (xs ++ y ∷ ys) % 256 == checksum_target) ≡ false
    wrong =
        rw (total-append xs (y ∷ ys), total)
          (shifted (total xs) (total ys) old byte
            (rw (total-append xs (x ∷ ys), total) at accepted.1))
