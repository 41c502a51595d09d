-- ===== src/Mbc/RoundTrip.antt =====
-- `MbcBlock::encode` against `MbcBlock::decode_exact`.
use dante_babel_box.Prelude.{
  ℕ, ◌+◌, ◌-◌, ◌^◌, ◌<◌, true, false, List, [], ◌∷◌, ◌++◌, ◌≡◌, refl, ap, arith, length, drop,
  get_or, ltb, ◌==◌, if◌then◌else◌, ok, length-append, take-append,
}
use dante_babel_box.Prelude.Bytes.{to_be, of_be-to_be}
use dante_babel_box.Mbc.{
  MbcBlock, checksum, fields, before_checksum, encode, decode_exact, last_octet, but_last, shortest,
}

-- The numbers of a block fit their widths.
pub record IsBlock (b : MbcBlock) : Type 0 where
  pub opcode : b.opcode < 2 ^ 16
  pub count : b.count < 2 ^ 16
  pub start_index : b.start_index < 2 ^ 16

get_or_last : (xs : List ℕ) (x : ℕ) → get_or (xs ++ x ∷ []) (length xs) 0 ≡ x
get_or_last [] x = refl
get_or_last (y ∷ xs) x = get_or_last xs x

pub length-before_checksum : (b : MbcBlock) → length (before_checksum b) ≡ 29 + length b.data_octets
unfolding before_checksum to_be
length-before_checksum b = omega arith

pub length-encode : (b : MbcBlock) → length (encode b) ≡ 30 + length b.data_octets
unfolding encode
length-encode b = omega (
  arith,
  length-append (before_checksum b) (checksum (before_checksum b) ∷ []),
  length-before_checksum b,
)

fields-encode : (b : MbcBlock) → IsBlock b → fields (encode b) (drop 24 (before_checksum b)) ≡ b
unfolding fields encode before_checksum to_be
fields-encode b h =
    let e1 = of_be-to_be 2 b.opcode (omega (arith, h.opcode)) in
    let e2 = of_be-to_be 2 b.count (omega (arith, h.count)) in
    let e3 = of_be-to_be 2 b.start_index (omega (arith, h.start_index)) in rw (e1, e2, e3) refl

-- A block whose numbers fit their widths is decoded from what it encodes to, whatever its data.
pub decode_exact-encode : (b : MbcBlock) → IsBlock b → decode_exact (encode b) ≡ ok b
unfolding decode_exact
decode_exact-encode b h =
    rw (long, end, start, same (checksum (before_checksum b)), if◌then◌else◌)
      (ap ok (fields-encode b h))
  where
    long : ltb (length (encode b)) shortest ≡ false
    long = ground (arith, length-encode b)

    index : length (encode b) - 1 ≡ length (before_checksum b)
    index = omega (arith, length-encode b, length-before_checksum b)

    end : last_octet (encode b) ≡ checksum (before_checksum b)
    end = rw index (unfold encode in get_or_last (before_checksum b) (checksum (before_checksum b)))

    start : but_last (encode b) ≡ before_checksum b
    start =
        rw index
          (unfold encode in take-append (before_checksum b) (checksum (before_checksum b) ∷ []))

    same : (n : ℕ) → (n == n) ≡ true
    same n = ground arith
