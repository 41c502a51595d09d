-- ===== src/Acn/Walking.antt =====
-- `walk_pdus` of acn.rs on a block whose PDUs leave out what they share with the one before.
use dante_babel_box.Prelude.{
  ℕ, zero, suc, ◌+◌, ◌-◌, ◌*◌, ◌/◌, ◌%◌, ◌≤◌, ◌<◌, true, false, Option, none, some, List, [], ◌∷◌,
  ◌++◌, ◌≡◌, refl, ap, arith, length, take, drop, ltb, ◌==◌, length-append, take-append,
  drop-append, All,
}
use mathlib.Core.Path.{subst}
use dante_babel_box.Acn.{
  Pdu, octet, has_flag, length_at, part, with_header, with_vector, pdu_at, next_pdu, advance,
  walk_once, walk, walk_pdus,
}

-- A PDU as it is written: each part is given, or left out.
pub record Item : Type 0 where
  pub vector : Option (List ℕ)
  pub header : Option (List ℕ)
  pub data_octets : Option (List ℕ)

abbrev pub octets_of : Option (List ℕ) → List ℕ
octets_of none = []
octets_of (some octets) = octets

abbrev pub flag_of : Option (List ℕ) → ℕ
flag_of none = 0
flag_of (some octets) = 1

abbrev pub or_last : Option (List ℕ) → List ℕ → List ℕ
or_last none last = last
or_last (some octets) last = octets

abbrev pub body_of : Item → List ℕ
body_of i = octets_of i.vector ++ (octets_of i.header ++ octets_of i.data_octets)

abbrev pub first_of : Item → ℕ
first_of i =
    (4 * flag_of i.vector + 2 * flag_of i.header + flag_of i.data_octets) * 16
    + (2 + length (body_of i)) / 256

unfoldable pub write_item : Item → List ℕ
write_item i = first_of i ∷ (2 + length (body_of i)) % 256 ∷ body_of i

unfoldable pub write_items : List Item → List ℕ
unfolding write_item
write_items [] = []
write_items (i ∷ is) = write_item i ++ write_items is

-- What the items stand for, after a last vector and header.
unfoldable pub pdus_of : List ℕ → List ℕ → List Item → List Pdu
pdus_of last_vector last_header [] = []
pdus_of last_vector last_header (i ∷ is) =
    record {
      vector = or_last i.vector last_vector;
      header = or_last i.header last_header;
      data_octets = octets_of i.data_octets;
    }
    ∷ pdus_of (or_last i.vector last_vector) (or_last i.header last_header) is

-- The parts have the lengths of the layer, and the whole fits twelve bits.
abbrev pub HasLength : ℕ → Option (List ℕ) → Type 0
HasLength n none = Unit {0}
HasLength n (some octets) = length octets ≡ n

pub record IsItem (vector_len header_len : ℕ) (i : Item) : Type 0 where
  pub vector : HasLength vector_len i.vector
  pub header : HasLength header_len i.header
  pub short : 2 + length (body_of i) < 4096

part-octets_of :
    (n : ℕ) (o : Option (List ℕ)) (rest last : List ℕ)
    → HasLength n o
    → part (flag_of o == 1) n (octets_of o ++ rest) last ≡ some (or_last o last, rest)
unfolding part
part-octets_of n none rest last h = refl
part-octets_of n (some octets) rest last h =
    subst (λ k. part true k (octets ++ rest) last ≡ some (octets, rest)) h
      (unfold part in rw (fits, take-append octets rest, drop-append octets rest) refl)
  where
    fits : ltb (length (octets ++ rest)) (length octets) ≡ false
    fits = ground (arith, length-append octets rest)

flags :
    (v h d n : ℕ)
    → v < 2
    → h < 2
    → d < 2
    → n < 4096
    → (has_flag 8 ((4 * v + 2 * h + d) * 16 + n / 256) ≡ false)
      × (has_flag 4 ((4 * v + 2 * h + d) * 16 + n / 256) ≡ (v == 1))
      × (has_flag 2 ((4 * v + 2 * h + d) * 16 + n / 256) ≡ (h == 1))
      × (has_flag 1 ((4 * v + 2 * h + d) * 16 + n / 256) ≡ (d == 1))
      × (((4 * v + 2 * h + d) * 16 + n / 256) % 16 * 256 + n % 256 ≡ n)
flags v h d n a b c e = ground arith

flag_of_bit : (o : Option (List ℕ)) → flag_of o < 2
flag_of_bit none = omega arith
flag_of_bit (some octets) = omega arith

with_header-octets_of :
    (d : Option (List ℕ)) (vector header : List ℕ)
    → with_header (flag_of d == 1) vector (some (header, octets_of d))
      ≡ some (record { vector = vector; header = header; data_octets = octets_of d })
unfolding with_header
with_header-octets_of none vector header = refl
with_header-octets_of (some octets) vector header = refl

module _ (vector_len header_len : ℕ) (last_vector last_header : List ℕ) where
  -- The first of the PDUs that an item stands for.
  abbrev pdu_of : Item → Pdu
  pdu_of i = record {
    vector = or_last i.vector last_vector;
    header = or_last i.header last_header;
    data_octets = octets_of i.data_octets;
  }

  pdu_at-write_item :
      (i : Item) (rest : List ℕ)
      → IsItem vector_len header_len i
      → pdu_at vector_len header_len last_vector last_header
          (write_item i ++ rest)
          (2 + length (body_of i))
          2
        ≡ some (pdu_of i)
  unfolding pdu_at with_vector
  pdu_at-write_item i rest h =
      rw
        (
          enough,
          all,
          cut,
          bit_4,
          part-octets_of vector_len i.vector (octets_of i.header ++ octets_of i.data_octets)
              last_vector h.vector,
          bit_2,
          part-octets_of header_len i.header (octets_of i.data_octets) last_header h.header,
          bit_1,
        )
        (with_header-octets_of i.data_octets (or_last i.vector last_vector)
          (or_last i.header last_header))
    where
      n : ℕ
      n = length (body_of i)

      bits :
          (has_flag 8 (first_of i) ≡ false)
          × (has_flag 4 (first_of i) ≡ (flag_of i.vector == 1))
          × (has_flag 2 (first_of i) ≡ (flag_of i.header == 1))
          × (has_flag 1 (first_of i) ≡ (flag_of i.data_octets == 1))
          × (first_of i % 16 * 256 + (2 + n) % 256 ≡ 2 + n)
      bits =
          flags (flag_of i.vector) (flag_of i.header) (flag_of i.data_octets) (2 + n)
            (flag_of_bit i.vector) (flag_of_bit i.header) (flag_of_bit i.data_octets) h.short

      bit_4 : has_flag 4 (octet (write_item i ++ rest) 0) ≡ (flag_of i.vector == 1)
      bit_4 = unfold write_item in bits.1

      bit_2 : has_flag 2 (octet (write_item i ++ rest) 0) ≡ (flag_of i.header == 1)
      bit_2 = unfold write_item in bits.2

      bit_1 : has_flag 1 (octet (write_item i ++ rest) 0) ≡ (flag_of i.data_octets == 1)
      bit_1 = unfold write_item in bits.3

      enough : ltb (2 + n) 2 ≡ false
      enough = ground arith

      all : ltb (length (write_item i ++ rest)) (2 + n) ≡ false
      all = unfold write_item in ground (arith, length-append (body_of i) rest)

      two : 2 + n - 2 ≡ n
      two = omega arith

      cut : take (2 + n - 2) (drop 2 (write_item i ++ rest)) ≡ body_of i
      cut = unfold write_item in rw (two, take-append (body_of i) rest) refl

  walk_once-write_item :
      (i : Item) (rest : List ℕ)
      → IsItem vector_len header_len i
      → walk_once vector_len header_len last_vector last_header (write_item i ++ rest)
        ≡ some (pdu_of i, rest)
  unfolding walk_once next_pdu
  walk_once-write_item i rest h =
      rw (long, measured, pdu_at-write_item i rest h, advance, behind) refl
    where
      n : ℕ
      n = length (body_of i)

      bits : (has_flag 8 (first_of i) ≡ false) × (first_of i % 16 * 256 + (2 + n) % 256 ≡ 2 + n)
      bits =
          let f =
            flags (flag_of i.vector) (flag_of i.header) (flag_of i.data_octets) (2 + n)
              (flag_of_bit i.vector) (flag_of_bit i.header) (flag_of_bit i.data_octets) h.short in
          (f.0, f.4)

      long : ltb (length (write_item i ++ rest)) 2 ≡ false
      long = unfold write_item in ground arith

      measured : length_at (write_item i ++ rest) ≡ some (2 + n, 2)
      measured = unfold length_at write_item in rw (bits.0, bits.1) refl

      next : 2 + n ≡ suc (suc n)
      next = omega arith

      behind : drop (2 + n) (write_item i ++ rest) ≡ rest
      behind = unfold write_item in rw (next, drop-append (body_of i) rest) refl

module _ (vector_len header_len : ℕ) where
  walk-write_items :
      (is : List Item) (fuel : ℕ) (last_vector last_header : List ℕ)
      → All (IsItem vector_len header_len) is
      → length is < fuel
      → walk fuel vector_len header_len last_vector last_header (write_items is)
        ≡ pdus_of last_vector last_header is
  unfolding walk write_items pdus_of
  walk-write_items is zero last_vector last_header h f = absurd (omega arith)
  walk-write_items [] (suc fuel) last_vector last_header h f = unfold walk_once in refl
  walk-write_items (i ∷ is) (suc fuel) last_vector last_header h f =
      rw
        (
          walk_once-write_item vector_len header_len last_vector last_header i (write_items is) h.0,
          walk,
        )
        (ap (λ (t : List Pdu). pdu_of vector_len header_len last_vector last_header i ∷ t)
          (walk-write_items is fuel (or_last i.vector last_vector) (or_last i.header last_header)
            h.1 (omega arith)))

  enough_octets : (is : List Item) → 2 * length is ≤ length (write_items is)
  unfolding write_items write_item
  enough_octets [] = omega arith
  enough_octets (i ∷ is) =
      omega (arith, length-append (body_of i) (write_items is), enough_octets is)

  -- A block of PDUs that each give their vector, header and data or leave them out, with lengths that
  -- fit twelve bits, is walked to these PDUs, where a vector or a header that is left out is that of
  -- the PDU before, and data that is left out is none.
  pub walk_pdus-write_items :
      (is : List Item)
      → All (IsItem vector_len header_len) is
      → walk_pdus (write_items is) vector_len header_len ≡ pdus_of [] [] is
  unfolding walk_pdus
  walk_pdus-write_items [] h = unfold walk write_items pdus_of in refl
  walk_pdus-write_items (i ∷ is) h =
      walk-write_items (i ∷ is) (length (write_items (i ∷ is))) [] [] h
        (omega (arith, enough_octets (i ∷ is)))
