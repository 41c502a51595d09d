-- ===== src/Core/ChannelScheme/RoundTrip.antt =====
-- Object numbers of channels and trims, encoded and decoded (channel_scheme.rs).
use dante_babel_box.Prelude.{
  ℕ, zero, suc, ◌+◌, ◌*◌, ◌/◌, ◌%◌, ◌^◌, ◌≤◌, ◌<◌, ◌≡◌, none, some, arith,
}
use dante_babel_box.Core.ChannelScheme.{
  Field, gain_ono, phantom_ono, pad_ono, decode_ono, field_ono, slot, trim_ono, decode_trim_ono,
  trim_ono_base,
}

-- Decoding the object number of a field of a channel that the device has gives the channel and
-- the field back.
pub decode_ono-field_ono :
    (channel : ℕ) (field : Field) (channels : ℕ)
    → 1 ≤ channel
    → channel ≤ channels
    → channels < 2 ^ 16
    → decode_ono (field_ono channel field) channels ≡ some (channel, field)
unfolding decode_ono gain_ono phantom_ono pad_ono
decode_ono-field_ono (suc c) Field.gain channels h k m =
    let e : slot (suc c) 1 ≡ suc (3 * c) = omega arith in rw e (ground arith)
decode_ono-field_ono (suc c) Field.phantom channels h k m =
    let e : slot (suc c) 2 ≡ suc (3 * c + 1) = omega arith in rw e (ground arith)
decode_ono-field_ono (suc c) Field.pad channels h k m =
    let e : slot (suc c) 3 ≡ suc (3 * c + 2) = omega arith in rw e (ground arith)
decode_ono-field_ono zero field channels h k m = absurd (omega arith)

-- An object number of the first 65535 channels that decodes is the one that encodes the decoded
-- channel and field, and the channel is one that the device has.
pub field_ono-decode_ono :
    (ono channels channel : ℕ) (field : Field)
    → ono ≤ 3 * 65535
    → decode_ono ono channels ≡ some (channel, field)
    → (field_ono channel field ≡ ono) × (1 ≤ channel) × (channel ≤ channels)
unfolding decode_ono gain_ono phantom_ono pad_ono
field_ono-decode_ono zero channels channel field h e = cc
field_ono-decode_ono (suc n) channels channel Field.gain h e = ground arith
field_ono-decode_ono (suc n) channels channel Field.phantom h e = ground arith
field_ono-decode_ono (suc n) channels channel Field.pad h e = ground arith

-- The cast of the channel to `u16` wraps: every object number decodes like the one 65536 channels
-- further on, so numbers past the device's range are accepted as its channels.
pub decode_ono_alias :
    (n channels : ℕ) → decode_ono (suc n + 3 * 2 ^ 16) channels ≡ decode_ono (suc n) channels
unfolding decode_ono
decode_ono_alias n channels =
    let e : suc n + 3 * 2 ^ 16 ≡ suc (n + 3 * 2 ^ 16) = omega arith in
    let m : (n + 3 * 2 ^ 16) % 3 ≡ n % 3 = omega arith in
    let c : ((n + 3 * 2 ^ 16) / 3 + 1) % 2 ^ 16 ≡ (n / 3 + 1) % 2 ^ 16 = omega arith in
    rw e (rw (m, c))

-- The object number of a trim that the device has decodes to its input channel.
pub decode_trim_ono-trim_ono :
    (input inputs : ℕ)
    → 1 ≤ input
    → input ≤ inputs
    → inputs < 2 ^ 16
    → decode_trim_ono (trim_ono input) inputs ≡ some input
unfolding decode_trim_ono trim_ono
decode_trim_ono-trim_ono input inputs h k m = ground arith

-- On a device with at most 21845 channels no trim object decodes as a preamp object, and no
-- preamp object of its channels decodes as a trim.
pub trim_disjoint :
    (input channels inputs channel : ℕ) (field : Field)
    → channels ≤ 21845
    → input < 2 ^ 16
    → 1 ≤ channel
    → channel ≤ channels
    → (decode_ono (trim_ono input) channels ≡ none)
      × (decode_trim_ono (field_ono channel field) inputs ≡ none)
unfolding decode_ono decode_trim_ono trim_ono gain_ono phantom_ono pad_ono
trim_disjoint input channels inputs channel Field.gain h i k l =
    let e : (trim_ono_base + input) % 2 ^ 32 ≡ suc (65535 + input) = omega arith in
    (rw e (ground arith), ground arith)
trim_disjoint input channels inputs channel Field.phantom h i k l =
    let e : (trim_ono_base + input) % 2 ^ 32 ≡ suc (65535 + input) = omega arith in
    (rw e (ground arith), ground arith)
trim_disjoint input channels inputs channel Field.pad h i k l =
    let e : (trim_ono_base + input) % 2 ^ 32 ≡ suc (65535 + input) = omega arith in
    (rw e (ground arith), ground arith)
