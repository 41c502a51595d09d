-- ===== src/Mbc/Conmon.antt =====
-- The ConMon envelope of codec.rs: wrapping a block, and finding the blocks of a payload.
use dante_babel_box.Prelude.{
  ℕ, ◌+◌, ◌-◌, ◌*◌, ◌/◌, ◌%◌, ◌^◌, Bool, ◌&&◌, Option, none, some, List, [], ◌∷◌, ◌++◌, length,
  take, drop, ltb, leb, ◌==◌, if◌then◌else◌, ok, err, to_option,
}
use dante_babel_box.Prelude.Bytes.{to_be, of_be}
use dante_babel_box.Mbc.{MbcBlock, octet, block_header_len, len_origin, decode_exact}

abbrev pub envelope_len : ℕ
envelope_len = 42

-- `[u8; 8]`
pub record Eui64 : Type 0 where
  pub e0 : ℕ
  pub e1 : ℕ
  pub e2 : ℕ
  pub e3 : ℕ
  pub e4 : ℕ
  pub e5 : ℕ
  pub e6 : ℕ
  pub e7 : ℕ

abbrev pub eui_octets : Eui64 → List ℕ
eui_octets e = e.e0 ∷ e.e1 ∷ e.e2 ∷ e.e3 ∷ e.e4 ∷ e.e5 ∷ e.e6 ∷ e.e7 ∷ []

-- "Audinate"
abbrev pub audinate : List ℕ
audinate = 65 ∷ 117 ∷ 100 ∷ 105 ∷ 110 ∷ 97 ∷ 116 ∷ 101 ∷ []

-- `((block.len() as u16 + 1) << 8) | 0xC0`: the shift drops the high octet, and leaves the low one
-- free for the constant.
abbrev pub vendor_field : List ℕ → ℕ
vendor_field block = (length block % 2 ^ 16 + 1) * 256 % 2 ^ 16 + 192

unfoldable pub wrap_conmon : List ℕ → ℕ → Eui64 → ℕ → List ℕ
unfolding to_be
wrap_conmon block sequence sender_eui64 message_class =
    255
    ∷ 255
    ∷ (to_be 2 ((envelope_len + length block) % 2 ^ 16)
        ++ (to_be 2 sequence
            ++ (0
                ∷ 0
                ∷ (eui_octets sender_eui64
                    ++ (audinate
                        ++ (to_be 4 message_class
                            ++ (0
                                ∷ 0
                                ∷ 0
                                ∷ 0
                                ∷ (to_be 2 sequence
                                    ++ (0
                                        ∷ 16
                                        ∷ 0
                                        ∷ 1
                                        ∷ 0
                                        ∷ 0
                                        ∷ (to_be 2 (vendor_field block) ++ block))))))))))

-- Of the vendor field only the high octet counts, which is the block's length plus one.
abbrev pub vendor_high : List ℕ → ℕ
vendor_high payload = of_be (octet payload 40 ∷ octet payload 41 ∷ []) / 256

unfoldable pub vendor_payload_end : List ℕ → Option ℕ
unfolding of_be
vendor_payload_end payload =
    if ltb (length payload) envelope_len
    then none
    else if vendor_high payload == 0
    then none
    else if leb (envelope_len + (vendor_high payload - 1)) (length payload)
    then some (envelope_len + (vendor_high payload - 1))
    else none

unfoldable pub declared_block_len : List ℕ → Option ℕ
unfolding of_be
declared_block_len slice =
    if ltb (length slice) block_header_len
    then none
    else some (len_origin + of_be (octet slice 4 ∷ octet slice 5 ∷ []))

abbrev pub is_magic : List ℕ → Bool
is_magic slice = octet slice 0 == 77 && octet slice 1 == 66 && octet slice 2 == 67

-- The offsets of the magic, counted from the offset at hand; an offset counts only when more than
-- the magic is left.
unfoldable pub starts_from : ℕ → List ℕ → List ℕ
starts_from i [] = []
starts_from i (x ∷ xs) =
    let rest = starts_from (i + 1) xs in
    if ltb 3 (length (x ∷ xs)) && is_magic (x ∷ xs) then i ∷ rest else rest

-- The block that ends where `len` says, or else the one that ends with the slice.
unfoldable pub first_block : List ℕ → Option ℕ → Option MbcBlock
unfolding decode_exact
first_block slice none = to_option (decode_exact slice)
first_block slice (some declared) =
    let whole = to_option (decode_exact slice) in
    let cut = decode_exact (take declared slice) in
    if leb declared (length slice) then elim cut [ ok b ↦ some b | err e ↦ whole ] else whole

abbrev pub prepend : Option MbcBlock → List MbcBlock → List MbcBlock
prepend none bs = bs
prepend (some b) bs = b ∷ bs

-- `starts.get(n + 1).copied().unwrap_or(region.len())`
abbrev pub hard_end : List ℕ → List ℕ → ℕ
hard_end region [] = length region
hard_end region (next ∷ rest) = next

unfoldable pub blocks_at : List ℕ → List ℕ → List MbcBlock
unfolding first_block declared_block_len
blocks_at region [] = []
blocks_at region (start ∷ rest) =
    let slice = drop start (take (hard_end region rest) region) in
    prepend (first_block slice (declared_block_len slice)) (blocks_at region rest)

abbrev pub min_ℕ : ℕ → ℕ → ℕ
min_ℕ a b = if leb a b then a else b

abbrev pub region_end : List ℕ → Option ℕ → ℕ
region_end payload none = length payload
region_end payload (some end) = min_ℕ end (length payload)

unfoldable pub blocks_in_conmon_payload : List ℕ → List MbcBlock
unfolding vendor_payload_end starts_from blocks_at
blocks_in_conmon_payload payload =
    let region = take (region_end payload (vendor_payload_end payload)) payload in
    blocks_at region (starts_from 0 region)
