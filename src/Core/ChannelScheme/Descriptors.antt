-- ===== src/Core/ChannelScheme/Descriptors.antt =====
-- The descriptor list of a device (channel_scheme.rs): what stands in it, and where.
use dante_babel_box.Prelude.{
  ℕ, zero, suc, ◌+◌, ◌*◌, ◌/◌, ◌%◌, ◌^◌, ◌≤◌, ◌<◌, ◌≡◌, refl, true, ◌&&◌, Option, none, some, List,
  [], ◌∷◌, length, get_elem?, ◌∙◌, leb, ltb, if◌then◌else◌, arith, All,
}
use dante_babel_box.Prelude.Text.{bytes_eq, bytes_eq_iff, bytes_eq_refl}
use dante_babel_box.Oca.{OcaObjectDescriptor}
use dante_babel_box.Core.ChannelScheme.{
  Field, field_of, role, descriptor, decode_ono, descriptors_from, descriptors_for_channels,
}
use dante_babel_box.Core.ChannelScheme.RoundTrip.{decode_ono-field_ono}
use dante_babel_box.Core.ChannelScheme.Roles.{role_inj}

-- `iter().find(|d| d.settable && d.role == role)`
unfoldable pub find_settable : List ℕ → List OcaObjectDescriptor → Option OcaObjectDescriptor
find_settable wanted [] = none
find_settable wanted (d ∷ ds) =
    if d.settable && bytes_eq d.role wanted then some d else find_settable wanted ds

-- A role other than the wanted one does not match.
bytes_eq-role :
    (c d : ℕ) (f g : Field)
    → c < 2 ^ 16
    → d < 2 ^ 16
    → bytes_eq (role c f) (role d g) ≡ true
    → (c ≡ d) × (f ≡ g)
bytes_eq-role c d f g hc hd e = role_inj c d f g hc hd ((bytes_eq_iff (role c f) (role d g)).0 e)

find_gain-from :
    (count first channel : ℕ)
    → first ≤ channel
    → first + count ≤ 2 ^ 16
    → channel < 2 ^ 16
    → find_settable (role channel Field.gain) (descriptors_from first count)
      ≡ (if ltb channel (first + count) then some (descriptor channel Field.gain) else none)
unfolding find_settable descriptors_from descriptor
find_gain-from zero first channel h k l = ground arith
find_gain-from (suc n) first channel h k l = ground (
  arith,
  bytes_eq-role first channel Field.gain Field.gain,
  bytes_eq-role first channel Field.phantom Field.gain,
  bytes_eq_refl (role channel Field.gain),
  find_gain-from n (first + 1) channel,
)

find_phantom-from :
    (count first channel : ℕ)
    → first ≤ channel
    → first + count ≤ 2 ^ 16
    → channel < 2 ^ 16
    → find_settable (role channel Field.phantom) (descriptors_from first count)
      ≡ (if ltb channel (first + count) then some (descriptor channel Field.phantom) else none)
unfolding find_settable descriptors_from descriptor
find_phantom-from zero first channel h k l = ground arith
find_phantom-from (suc n) first channel h k l = ground (
  arith,
  bytes_eq-role first channel Field.gain Field.phantom,
  bytes_eq-role first channel Field.phantom Field.phantom,
  bytes_eq_refl (role channel Field.phantom),
  find_phantom-from n (first + 1) channel,
)

-- The search by role finds the object of the channel exactly when the device has the channel.
pub find_gain :
    (channels channel : ℕ)
    → 1 ≤ channel
    → channel < 2 ^ 16
    → channels < 2 ^ 16
    → find_settable (role channel Field.gain) (descriptors_for_channels channels)
      ≡ (if leb channel channels then some (descriptor channel Field.gain) else none)
unfolding descriptors_for_channels
find_gain channels channel h k l = ground (arith, find_gain-from channels 1 channel)

pub find_phantom :
    (channels channel : ℕ)
    → 1 ≤ channel
    → channel < 2 ^ 16
    → channels < 2 ^ 16
    → find_settable (role channel Field.phantom) (descriptors_for_channels channels)
      ≡ (if leb channel channels then some (descriptor channel Field.phantom) else none)
unfolding descriptors_for_channels
find_phantom channels channel h k l = ground (arith, find_phantom-from channels 1 channel)

-- The descriptor at hand stands for a channel and a field of the device, under its own number.
abbrev pub Describes : ℕ → OcaObjectDescriptor → Type 0
Describes channels d =
    (channel : ℕ) × (field : Field) × (d ≡ descriptor channel field)
    × (1 ≤ channel)
    × (channel ≤ channels)
    × (decode_ono d.ono channels ≡ some (channel, field))

describe :
    (channels channel : ℕ) (field : Field)
    → 1 ≤ channel
    → channel ≤ channels
    → channels < 2 ^ 16
    → Describes channels (descriptor channel field)
unfolding descriptor
describe channels c Field.gain h k l =
    (c, Field.gain, refl, h, k, decode_ono-field_ono c Field.gain channels h k l)
describe channels c Field.phantom h k l =
    (c, Field.phantom, refl, h, k, decode_ono-field_ono c Field.phantom channels h k l)
describe channels c Field.pad h k l =
    (c, Field.pad, refl, h, k, decode_ono-field_ono c Field.pad channels h k l)

descriptors_from-Describes :
    (channels count first : ℕ)
    → 1 ≤ first
    → first + count ≤ channels + 1
    → channels < 2 ^ 16
    → All (Describes channels) (descriptors_from first count)
unfolding descriptors_from
descriptors_from-Describes channels zero first h k l = tt
descriptors_from-Describes channels (suc n) first h k l = (
  describe channels first Field.gain h (omega arith) l,
  (
    describe channels first Field.phantom h (omega arith) l,
    (
      describe channels first Field.pad h (omega arith) l,
      descriptors_from-Describes channels n (first + 1) (omega arith) (omega arith) l,
    ),
  ),
)

length-descriptors_from : (count first : ℕ) → length (descriptors_from first count) ≡ 3 * count
unfolding descriptors_from
length-descriptors_from zero first = refl
length-descriptors_from (suc n) first = omega (arith, length-descriptors_from n (first + 1))

-- The list by its places: three for each channel, for its fields in their order.
abbrev pub placed : ℕ → ℕ → ℕ → Option OcaObjectDescriptor
placed first count i =
    if ltb i (3 * count) then some (descriptor (first + i / 3) (field_of (i % 3))) else none

placed-suc :
    (first count i : ℕ) → placed (first + 1) count i ≡ placed first (suc count) (suc (suc (suc i)))
placed-suc first count i =
    let place : suc (suc (suc i)) / 3 ≡ i / 3 + 1 = omega arith in
    let field : suc (suc (suc i)) % 3 ≡ i % 3 = omega arith in
    let later : first + (i / 3 + 1) ≡ first + 1 + i / 3 = omega arith in
    rw (place, field, later, bound) refl
  where
    bound : ltb (suc (suc (suc i))) (3 * suc count) ≡ ltb i (3 * count)
    bound = ground arith

get_elem?-descriptors_from :
    (count first i : ℕ) → get_elem? (descriptors_from first count) i ≡ placed first count i
unfolding descriptors_from
get_elem?-descriptors_from zero first i = ground arith
get_elem?-descriptors_from (suc n) first zero = ground arith
get_elem?-descriptors_from (suc n) first (suc zero) = ground arith
get_elem?-descriptors_from (suc n) first (suc (suc zero)) = ground arith
get_elem?-descriptors_from (suc n) first (suc (suc (suc i))) =
    get_elem?-descriptors_from n (first + 1) i ∙ placed-suc first n i

-- A device of n channels has 3 * n descriptors: gain, phantom and pad of the first channel, then
-- those of the second, and so on. Each is that of a channel and field of the device whose object
-- number decodes back to that channel and field.
pub descriptors_complete :
    (channels : ℕ)
    → channels < 2 ^ 16
    → (length (descriptors_for_channels channels) ≡ 3 * channels)
      × ((i : ℕ)
          → get_elem? (descriptors_for_channels channels) i ≡ (
              if ltb i (3 * channels)
              then some (descriptor (1 + i / 3) (field_of (i % 3)))
              else none))
      × All (Describes channels) (descriptors_for_channels channels)
unfolding descriptors_for_channels
descriptors_complete channels h = (
  length-descriptors_from channels 1,
  get_elem?-descriptors_from channels 1,
  descriptors_from-Describes channels channels 1 (omega arith) (omega arith) h,
)
