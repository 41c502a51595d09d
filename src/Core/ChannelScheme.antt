-- ===== src/Core/ChannelScheme.antt =====
-- crates/core/src/channel_scheme.rs: three objects (gain, phantom, pad) for each channel, and the
-- trim objects in a range of their own. Arithmetic on `u32` and the cast to `u16` wrap as in a
-- release build.
pub mod RoundTrip
pub mod Roles
pub mod Descriptors
use dante_babel_box.Prelude.{
  ℕ, zero, suc, ◌+◌, ◌-◌, ◌*◌, ◌/◌, ◌%◌, ◌^◌, Bool, true, false, ◌||◌, Option, none, some, List, [],
  ◌∷◌, ◌++◌, ltb, ◌==◌, if◌then◌else◌,
}
use dante_babel_box.Prelude.Text.{codes, decimal}
use dante_babel_box.Oca.{Ono, OcaClass, OcaObjectDescriptor}

pub data Field : Type 0 where
  gain phantom pad : Field

unfoldable pub role_suffix : Field → List ℕ
role_suffix Field.gain = codes "Gain"
role_suffix Field.phantom = codes "Phantom"
role_suffix Field.pad = codes "Pad"

-- `3 * (channel as u32 - 1) + k`
abbrev pub slot : ℕ → ℕ → ℕ
slot channel k = (3 * ((channel + 2 ^ 32 - 1) % 2 ^ 32) + k) % 2 ^ 32

unfoldable pub gain_ono : ℕ → Ono
gain_ono channel = slot channel 1

unfoldable pub phantom_ono : ℕ → Ono
phantom_ono channel = slot channel 2

unfoldable pub pad_ono : ℕ → Ono
pad_ono channel = slot channel 3

abbrev pub field_of : ℕ → Field
field_of r = if r == 0 then Field.gain else if r == 1 then Field.phantom else Field.pad

-- `checked_sub(1)?`, then the channel cast to `u16` and held against the device's range.
unfoldable pub decode_ono : Ono → ℕ → Option (ℕ × Field)
decode_ono zero channels = none
decode_ono (suc n) channels =
    let channel = (n / 3 + 1) % 2 ^ 16 in
    if channel == 0 || ltb channels channel then none else some (channel, field_of (n % 3))

-- `format!("Ch {channel} {}", field.role_suffix())`
unfoldable pub role : ℕ → Field → List ℕ
unfolding role_suffix
role channel field = codes "Ch " ++ (decimal channel ++ (codes " " ++ role_suffix field))

-- The object number that `descriptor` gives to a field.
abbrev pub field_ono : ℕ → Field → Ono
field_ono channel Field.gain = gain_ono channel
field_ono channel Field.phantom = phantom_ono channel
field_ono channel Field.pad = pad_ono channel

unfoldable pub descriptor : ℕ → Field → OcaObjectDescriptor
descriptor channel Field.gain = record {
  ono = gain_ono channel;
  class = OcaClass.gain;
  role = role channel Field.gain;
  settable = true;
}
descriptor channel Field.phantom = record {
  ono = phantom_ono channel;
  class = OcaClass.switch;
  role = role channel Field.phantom;
  settable = true;
}
descriptor channel Field.pad = record {
  ono = pad_ono channel;
  class = OcaClass.switch;
  role = role channel Field.pad;
  settable = false;
}

abbrev pub trim_ono_base : ℕ
trim_ono_base = 0x0001_0000

unfoldable pub trim_ono : ℕ → Ono
trim_ono input = (trim_ono_base + input) % 2 ^ 32

unfoldable pub decode_trim_ono : Ono → ℕ → Option ℕ
decode_trim_ono ono inputs =
    if ltb ono trim_ono_base
    then none
    else let input = ono - trim_ono_base in
      if input == 0 || ltb inputs input then none else some (input % 2 ^ 16)

-- `format!("In {input} Trim")`
unfoldable pub trim_role : ℕ → List ℕ
trim_role input = codes "In " ++ (decimal input ++ codes " Trim")

unfoldable pub trim_descriptor : ℕ → OcaObjectDescriptor
trim_descriptor input = record {
  ono = trim_ono input;
  class = OcaClass.gain;
  role = trim_role input;
  settable = true;
}

-- `(first..first + count).map(trim_descriptor)`
unfoldable pub trim_descriptors_from : ℕ → ℕ → List OcaObjectDescriptor
trim_descriptors_from first zero = []
trim_descriptors_from first (suc count) =
    trim_descriptor first ∷ trim_descriptors_from (first + 1) count

unfoldable pub trim_descriptors : ℕ → List OcaObjectDescriptor
unfolding trim_descriptors_from
trim_descriptors inputs = trim_descriptors_from 1 inputs

-- `for channel in first..first + count`
unfoldable pub descriptors_from : ℕ → ℕ → List OcaObjectDescriptor
descriptors_from first zero = []
descriptors_from first (suc count) =
    descriptor first Field.gain
    ∷ descriptor first Field.phantom
    ∷ descriptor first Field.pad
    ∷ descriptors_from (first + 1) count

unfoldable pub descriptors_for_channels : ℕ → List OcaObjectDescriptor
unfolding descriptors_from
descriptors_for_channels channels = descriptors_from 1 channels
