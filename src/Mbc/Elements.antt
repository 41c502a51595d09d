-- ===== src/Mbc/Elements.antt =====
-- The elements of a block in codec.rs, and the broadcasts that a console sends.
use dante_babel_box.Prelude.{
  ℕ, zero, suc, ◌-◌, ◌/◌, ◌%◌, ◌^◌, Bool, false, not, ◌||◌, Option, none, some, List, [], ◌∷◌, ◌++◌,
  length, ltb, ◌==◌, if◌then◌else◌, Result, ok, err, map,
}
use dante_babel_box.Prelude.Int.{ℤ, pos, negsuc, ltb_ℤ}
use dante_babel_box.Prelude.Bytes.{to_be, of_be}
use dante_babel_box.Mbc.{MbcBlock, MbcError, Mac}

abbrev pub opcode_headamp : ℕ
opcode_headamp = 1826

abbrev pub opcode_metering : ℕ
opcode_metering = 1858

abbrev pub subop_gain : ℕ
subop_gain = 22

abbrev pub subop_phantom : ℕ
subop_phantom = 23

abbrev pub subop_metering : ℕ
subop_metering = 0

abbrev pub headamp_channels : ℕ
headamp_channels = 32

-- `GAIN_MIN_DB` = -6 dB and `GAIN_MAX_DB` = 66 dB
abbrev pub gain_min : ℤ
gain_min = negsuc 599

abbrev pub gain_max : ℤ
gain_max = pos 6600

-- Bit 0x20 of the flags.
unfoldable pub from_device : MbcBlock → Bool
from_device b = b.flags / 32 % 2 == 1

unfoldable pub is_query : MbcBlock → Bool
is_query b = length b.data_octets == 0

-- The width of an element, from the length of the data and the count.
abbrev pub width_of : ℕ → ℕ → Result MbcError (Option ℕ)
width_of data_len zero = if data_len == 0 then ok none else err (MbcError.ragged_data data_len 0)
width_of data_len (suc count) =
    if data_len == 0
    then ok none
    else if not (data_len % suc count == 0)
    then err (MbcError.ragged_data data_len (suc count))
    else ok (some (data_len / suc count))

unfoldable pub element_width : MbcBlock → Result MbcError (Option ℕ)
element_width b = width_of (length b.data_octets) b.count

-- `element_width().ok().flatten() == Some(width)`
abbrev pub has_width : Result MbcError (Option ℕ) → ℕ → Bool
has_width (err e) width = false
has_width (ok none) width = false
has_width (ok (some w)) width = w == width

-- `i16::from_be_bytes`
unfoldable pub of_be_i16 : ℕ → ℕ → ℤ
unfolding of_be
of_be_i16 hi lo =
    let v = of_be (hi ∷ lo ∷ []) in if ltb v (2 ^ 15) then pos v else negsuc (2 ^ 16 - 1 - v)

-- `i16::to_be_bytes`
unfoldable pub to_be_i16 : ℤ → List ℕ
unfolding to_be
to_be_i16 (pos n) = to_be 2 n
to_be_i16 (negsuc n) = to_be 2 (2 ^ 16 - 1 - n)

-- `as_chunks::<2>`: an odd octet at the end is dropped.
unfoldable pub i16_elements : List ℕ → List ℤ
unfolding of_be_i16
i16_elements [] = []
i16_elements (a ∷ []) = []
i16_elements (a ∷ b ∷ rest) = of_be_i16 a b ∷ i16_elements rest

unfoldable pub as_i16 : MbcBlock → Option (List ℤ)
unfolding element_width i16_elements
as_i16 b = if has_width (element_width b) 2 then some (i16_elements b.data_octets) else none

unfoldable pub as_u8 : MbcBlock → Option (List ℕ)
unfolding element_width
as_u8 b = if has_width (element_width b) 1 then some b.data_octets else none

unfoldable pub gain_db : MbcBlock → Option (List ℤ)
unfolding as_i16
gain_db b =
    if not (b.opcode == opcode_headamp) || not (b.subop == subop_gain) then none else as_i16 b

abbrev pub map_option : {A B : Type 0} → (A → B) → Option A → Option B
map_option f none = none
map_option f (some a) = some (f a)

unfoldable pub phantom : MbcBlock → Option (List Bool)
unfolding as_u8
phantom b =
    if not (b.opcode == opcode_headamp) || not (b.subop == subop_phantom)
    then none
    else map_option (map (λ v. not (v == 0))) (as_u8 b)

unfoldable pub metering_raw : MbcBlock → Option (List ℕ)
unfolding as_u8
metering_raw b =
    if not (b.opcode == opcode_metering) || not (b.subop == subop_metering) then none else as_u8 b

unfoldable pub clamp_gain : ℤ → ℤ
clamp_gain g = if ltb_ℤ g gain_min then gain_min else if ltb_ℤ gain_max g then gain_max else g

unfoldable pub gain_octets : List ℤ → List ℕ
unfolding clamp_gain to_be_i16
gain_octets [] = []
gain_octets (g ∷ gs) = to_be_i16 (clamp_gain g) ++ gain_octets gs

unfoldable pub gain_broadcast : Mac → Mac → List ℤ → MbcBlock
unfolding gain_octets
gain_broadcast src_mac dst_mac gains = record {
  version = 1;
  src_mac = src_mac;
  dst_mac = dst_mac;
  flags = 0;
  opcode = opcode_headamp;
  subop = subop_gain;
  count = headamp_channels;
  start_index = 0;
  data_octets = gain_octets gains;
}

abbrev pub switch_octet : Bool → ℕ
switch_octet on = if on then 1 else 0

unfoldable pub phantom_broadcast : Mac → Mac → List Bool → MbcBlock
phantom_broadcast src_mac dst_mac switches = record {
  version = 1;
  src_mac = src_mac;
  dst_mac = dst_mac;
  flags = 0;
  opcode = opcode_headamp;
  subop = subop_phantom;
  count = headamp_channels;
  start_index = 0;
  data_octets = map switch_octet switches;
}
