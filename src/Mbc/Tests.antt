-- ===== src/Mbc/Tests.antt =====
-- The head-amp codec at concrete inputs.
use dante_babel_box.Prelude.{ℕ, ◌≢◌, List, [], ◌∷◌, ◌++◌, ◌≡◌, refl, arith, All, ok, err, drop}
use dante_babel_box.Prelude.Bytes.{IsByte, to_be}
use dante_babel_box.Mbc.{
  Mac, MbcBlock, MbcError, encode, before_checksum, checksum, wrapping_sum, decode_exact,
}
use dante_babel_box.Mbc.RoundTrip.{IsBlock, decode_exact-encode}
use dante_babel_box.Mbc.Checksum.{decode_exact_corrupted}
use dante_babel_box.Mbc.Conmon.{Eui64, wrap_conmon, starts_from, blocks_in_conmon_payload}
use dante_babel_box.Mbc.Envelope.{blocks_in_conmon_payload-wrap_conmon}

abbrev mac : Mac
mac = record { m0 = 0; m1 = 29; m2 = 193; m3 = 23; m4 = 234; m5 = 44 }

abbrev eui : Eui64
eui = record { e0 = 0; e1 = 29; e2 = 193; e3 = 23; e4 = 234; e5 = 44; e6 = 0; e7 = 0 }

-- A read request for 32 gains.
abbrev query : MbcBlock
query = record {
  version = 1;
  src_mac = mac;
  dst_mac = mac;
  flags = 0;
  opcode = 1826;
  subop = 22;
  count = 32;
  start_index = 0;
  data_octets = [];
}

query-IsBlock : IsBlock query
query-IsBlock = record { opcode = omega arith; count = omega arith; start_index = omega arith }

decode_exact-encode_example : decode_exact (encode query) ≡ ok query
decode_exact-encode_example = decode_exact-encode query query-IsBlock

abbrev rest_octets : List ℕ
rest_octets = drop 1 (encode query)

decode_exact_corrupted_example :
    (e : ℕ) × (c : ℕ) × (decode_exact ([] ++ 78 ∷ rest_octets) ≡ err (MbcError.bad_checksum e c))
unfolding encode before_checksum checksum wrapping_sum to_be
decode_exact_corrupted_example =
    decode_exact_corrupted [] rest_octets 77 78 query bytes (omega arith) differ
      (decode_exact-encode query query-IsBlock)
  where
    bytes : All IsByte (77 ∷ rest_octets)
    bytes = ground arith

    first : ℕ
    first = 77

    differ : first ≢ 78
    differ h = omega arith

blocks_in_conmon_payload-wrap_conmon_example :
    blocks_in_conmon_payload (wrap_conmon (encode query) 5 eui 7) ≡ query ∷ []
unfolding wrap_conmon encode before_checksum checksum wrapping_sum to_be starts_from
blocks_in_conmon_payload-wrap_conmon_example =
    blocks_in_conmon_payload-wrap_conmon query 5 eui 7 query-IsBlock (omega arith) refl
