-- ===== src/Acn.antt =====
-- crates/mic-adapter-shure-acn/src/acn.rs: walking the PDUs of an ACN block. The offset into the
-- buffer is kept as the part of the buffer that begins there.
pub mod Walking
pub mod Fuel
mod Tests
use dante_babel_box.Prelude.{
  ℕ, zero, suc, ◌+◌, ◌-◌, ◌*◌, ◌/◌, ◌%◌, Bool, true, false, ◌||◌, Option, none, some, List, [], ◌∷◌,
  length, take, drop, get_or, ltb, ◌==◌, if◌then◌else◌,
}

pub record Pdu : Type 0 where
  pub vector : List ℕ
  pub header : List ℕ
  pub data_octets : List ℕ

abbrev pub octet : List ℕ → ℕ → ℕ
octet buf i = get_or buf i 0

-- The bits of the flags nibble: 0x8, 0x4, 0x2 and 0x1.
abbrev pub has_flag : ℕ → ℕ → Bool
has_flag flag first = first / 16 / flag % 2 == 1

-- The length of a PDU, and that of the length itself: 20 bits in three octets or 12 in two.
unfoldable pub length_at : List ℕ → Option (ℕ × ℕ)
length_at buf =
    if has_flag 8 (octet buf 0)
    then (if ltb (length buf) 3
        then none
        else some (octet buf 0 % 16 * 65536 + octet buf 1 * 256 + octet buf 2, 3))
    else some (octet buf 0 % 16 * 256 + octet buf 1, 2)

-- A part of the body, and what follows it: the first octets when it is present, the last one seen
-- when it is not.
unfoldable pub part : Bool → ℕ → List ℕ → List ℕ → Option (List ℕ × List ℕ)
part false n body last = some (last, body)
part true n body last = if ltb (length body) n then none else some (take n body, drop n body)

unfoldable pub with_header : Bool → List ℕ → Option (List ℕ × List ℕ) → Option Pdu
with_header has_data vector none = none
with_header has_data vector (some (header, body)) =
    some (record { vector = vector; header = header; data_octets = if has_data then body else [] })

unfoldable pub with_vector : ℕ → ℕ → List ℕ → Option (List ℕ × List ℕ) → Option Pdu
unfolding part with_header
with_vector first header_len last_header none = none
with_vector first header_len last_header (some (vector, body)) =
    with_header (has_flag 1 first) vector (part (has_flag 2 first) header_len body last_header)

-- The PDU at the start of the buffer, of a length that is known.
unfoldable pub pdu_at : ℕ → ℕ → List ℕ → List ℕ → List ℕ → ℕ → ℕ → Option Pdu
unfolding part with_vector
pdu_at vector_len header_len last_vector last_header buf len header_octets =
    let body = take (len - header_octets) (drop header_octets buf) in
    if ltb len header_octets || ltb (length buf) len
    then none
    else with_vector (octet buf 0) header_len last_header
        (part (has_flag 4 (octet buf 0)) vector_len body last_vector)

-- `offset += length`
unfoldable pub advance : ℕ → List ℕ → Option Pdu → Option (Pdu × List ℕ)
advance len buf none = none
advance len buf (some pdu) = some (pdu, drop len buf)

unfoldable pub next_pdu : ℕ → ℕ → List ℕ → List ℕ → List ℕ → Option (ℕ × ℕ) → Option (Pdu × List ℕ)
unfolding pdu_at advance
next_pdu vector_len header_len last_vector last_header buf none = none
next_pdu vector_len header_len last_vector last_header buf (some (len, header_octets)) =
    advance len buf (pdu_at vector_len header_len last_vector last_header buf len header_octets)

-- One round of the loop: none when it ends or breaks off.
unfoldable pub walk_once : ℕ → ℕ → List ℕ → List ℕ → List ℕ → Option (Pdu × List ℕ)
unfolding length_at next_pdu
walk_once vector_len header_len last_vector last_header buf =
    if ltb (length buf) 2
    then none
    else next_pdu vector_len header_len last_vector last_header buf (length_at buf)

-- The loop on fuel; each round consumes at least two octets.
unfoldable pub walk : ℕ → ℕ → ℕ → List ℕ → List ℕ → List ℕ → List Pdu
walk zero vector_len header_len last_vector last_header buf = []
walk (suc fuel) vector_len header_len last_vector last_header buf =
    elim (walk_once vector_len header_len last_vector last_header buf) [
      | none ↦ []
      | some (pdu, rest) ↦ pdu ∷ walk fuel vector_len header_len pdu.vector pdu.header rest
    ]

unfoldable pub walk_pdus : List ℕ → ℕ → ℕ → List Pdu
unfolding walk
walk_pdus buf vector_len header_len = walk (length buf) vector_len header_len [] [] buf
