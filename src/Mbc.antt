-- ===== src/Mbc.antt =====
-- crates/preamp-adapter-yamaha/src/mbc/codec.rs: the head-amp block and its ConMon envelope. An
-- octet is a number below 256; gains are hundredths of a dB, the wire's unit, so that the rounding
-- of `gain_broadcast` to it is not modelled.
pub mod Elements
pub mod Broadcasts
pub mod Checksum
pub mod RoundTrip
pub mod Conmon
pub mod Envelope
mod Tests
use dante_babel_box.Prelude.{
  ℕ, ◌+◌, ◌-◌, ◌*◌, ◌/◌, ◌%◌, ◌^◌, Bool, true, false, List, [], ◌∷◌, ◌++◌, length, take, drop,
  get_or, ltb, ◌==◌, if◌then◌else◌, Result, ok, err,
}
use dante_babel_box.Prelude.Bytes.{to_be, of_be}

abbrev pub checksum_target : ℕ
checksum_target = 63

abbrev pub block_header_len : ℕ
block_header_len = 24

-- `len` counts from this offset to the end of the block.
abbrev pub len_origin : ℕ
len_origin = 20

abbrev pub body_prefix_len : ℕ
body_prefix_len = 5

pub data MbcError : Type 0 where
  no_magic : MbcError
  truncated : ℕ → ℕ → MbcError
  bad_checksum : ℕ → ℕ → MbcError
  ragged_data : ℕ → ℕ → MbcError

-- `[u8; 6]`
pub record Mac : Type 0 where
  pub m0 : ℕ
  pub m1 : ℕ
  pub m2 : ℕ
  pub m3 : ℕ
  pub m4 : ℕ
  pub m5 : ℕ

abbrev pub mac_octets : Mac → List ℕ
mac_octets m = m.m0 ∷ m.m1 ∷ m.m2 ∷ m.m3 ∷ m.m4 ∷ m.m5 ∷ []

pub record MbcBlock : Type 0 where
  pub version : ℕ
  pub src_mac : Mac
  pub dst_mac : Mac
  pub flags : ℕ
  pub opcode : ℕ
  pub subop : ℕ
  pub count : ℕ
  pub start_index : ℕ
  pub data_octets : List ℕ

-- The fold of `wrapping_add`.
unfoldable pub wrapping_sum : ℕ → List ℕ → ℕ
wrapping_sum acc [] = acc
wrapping_sum acc (b ∷ bs) = wrapping_sum ((acc + b) % 256) bs

-- `CHECKSUM_TARGET.wrapping_sub(sum)`
unfoldable pub checksum : List ℕ → ℕ
unfolding wrapping_sum
checksum block = (checksum_target + 256 - wrapping_sum 0 block) % 256

-- The `len` field of a block.
abbrev pub len_field : MbcBlock → ℕ
len_field b =
    (block_header_len - len_origin + (body_prefix_len + length b.data_octets + 1)) % 2 ^ 16

-- A block up to its checksum.
unfoldable pub before_checksum : MbcBlock → List ℕ
unfolding to_be
before_checksum b =
    77
    ∷ 66
    ∷ 67
    ∷ b.version
    ∷ (to_be 2 (len_field b)
        ++ (mac_octets b.src_mac
            ++ (mac_octets b.dst_mac
                ++ (0
                    ∷ 0
                    ∷ len_field b % 256
                    ∷ b.flags
                    ∷ (to_be 2 b.opcode
                        ++ (b.subop
                            ∷ (to_be 2 b.count ++ (to_be 2 b.start_index ++ b.data_octets))))))))

-- `MbcBlock::encode`
unfoldable pub encode : MbcBlock → List ℕ
unfolding before_checksum checksum
encode b = before_checksum b ++ checksum (before_checksum b) ∷ []

-- `slice[i]`; the code only reads within a slice of at least thirty octets.
abbrev pub octet : List ℕ → ℕ → ℕ
octet slice i = get_or slice i 0

abbrev pub mac_at : List ℕ → ℕ → Mac
mac_at slice i = record {
  m0 = octet slice i;
  m1 = octet slice (i + 1);
  m2 = octet slice (i + 2);
  m3 = octet slice (i + 3);
  m4 = octet slice (i + 4);
  m5 = octet slice (i + 5);
}

unfoldable pub fields : List ℕ → List ℕ → MbcBlock
unfolding of_be
fields slice body = record {
  version = octet slice 3;
  src_mac = mac_at slice 6;
  dst_mac = mac_at slice 12;
  flags = octet slice 21;
  opcode = of_be (octet slice 22 ∷ octet slice 23 ∷ []);
  subop = octet body 0;
  count = of_be (octet body 1 ∷ octet body 2 ∷ []);
  start_index = of_be (octet body 3 ∷ octet body 4 ∷ []);
  data_octets = drop body_prefix_len body;
}

abbrev pub shortest : ℕ
shortest = block_header_len + body_prefix_len + 1

abbrev pub last_octet : List ℕ → ℕ
last_octet slice = octet slice (length slice - 1)

abbrev pub but_last : List ℕ → List ℕ
but_last slice = take (length slice - 1) slice

-- `MbcBlock::decode_exact`
unfoldable pub decode_exact : List ℕ → Result MbcError MbcBlock
unfolding checksum fields
decode_exact slice =
    if ltb (length slice) shortest
    then err (MbcError.truncated shortest (length slice))
    else if last_octet slice == checksum (but_last slice)
    then ok (fields slice (drop block_header_len (but_last slice)))
    else err (MbcError.bad_checksum (last_octet slice) (checksum (but_last slice)))
