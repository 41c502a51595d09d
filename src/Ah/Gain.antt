-- ===== src/Ah/Gain.antt =====
-- The gain and switch octets that dlive.rs and ahm.rs share.
use dante_babel_box.Prelude.{
  ℕ, ◌+◌, ◌-◌, ◌*◌, ◌/◌, ◌≤◌, ◌<◌, Bool, true, false, ◌≡◌, arith, ltb, leb, if◌then◌else◌,
}
use dante_babel_box.Prelude.Int.{ℤ, pos, pos_part}

-- `GAIN_MIN_DB` = 5 dB
abbrev pub gain_min : ℕ
gain_min = 635000

-- `GAIN_MAX_DB` = 60 dB
abbrev pub gain_max : ℕ
gain_max = 7620000

-- `gain_db.clamp(GAIN_MIN_DB, GAIN_MAX_DB)`
abbrev pub clamp_gain : ℤ → ℕ
clamp_gain gain_db =
    if ltb (pos_part gain_db) gain_min
    then gain_min
    else if ltb gain_max (pos_part gain_db)
    then gain_max
    else pos_part gain_db

-- `(frac * 127.0).round()`: a step of the scale is 55000 of the unit.
unfoldable pub gain_db_to_byte : ℤ → ℕ
gain_db_to_byte gain_db = ((clamp_gain gain_db - gain_min) * 2 + 55000) / 110000

unfoldable pub gain_byte_to_db : ℕ → ℕ
gain_byte_to_db byte = gain_min + (if ltb 127 byte then 127 else byte) * 55000

unfoldable pub bool_to_byte : Bool → ℕ
bool_to_byte on = if on then 127 else 0

unfoldable pub byte_to_bool : ℕ → Bool
byte_to_bool value = leb 64 value

-- The octet for any gain is a MIDI data octet; what it stands for is in the range of the scale and
-- at most half a step, 27500 units, from the gain that was asked for, as far as this is in the
-- range itself. An octet of the scale comes back as itself.
pub gain_db_to_byte_near :
    (gain_db : ℤ) (byte : ℕ)
    → byte < 128
    → (gain_db_to_byte gain_db < 128)
      × (gain_byte_to_db (gain_db_to_byte gain_db) ≤ clamp_gain gain_db + 27500)
      × (clamp_gain gain_db ≤ gain_byte_to_db (gain_db_to_byte gain_db) + 27500)
      × (gain_db_to_byte (pos (gain_byte_to_db byte)) ≡ byte)
unfolding gain_db_to_byte gain_byte_to_db
gain_db_to_byte_near gain_db byte h = (ground arith, ground arith, ground arith, ground arith)

pub byte_to_bool-bool_to_byte : (on : Bool) → byte_to_bool (bool_to_byte on) ≡ on
unfolding byte_to_bool bool_to_byte
byte_to_bool-bool_to_byte true = ground arith
byte_to_bool-bool_to_byte false = ground arith
