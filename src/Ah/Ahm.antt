-- ===== src/Ah/Ahm.antt =====
-- crates/preamp-adapter-ah/src/ahm.rs: the adapter of the AHM processors. What is written to the
-- socket is the result of an operation; what arrives is given in pieces.
pub mod Nrpn
mod Tests
use dante_babel_box.Prelude.{
  ℕ, ◌+◌, ◌-◌, ◌/◌, ◌*◌, ◌%◌, Bool, true, false, not, ◌&&◌, ◌||◌, Option, none, some, List, [], ◌∷◌,
  ◌++◌, length, take, drop, get_or, ltb, leb, ◌==◌, if◌then◌else◌, Result, ok, err, ◌>>=◌,
}
use dante_babel_box.Prelude.Int.{ℤ}
use dante_babel_box.Prelude.Text.{bytes_eq}
use dante_babel_box.Prelude.Maps.{lookup, insert}
use dante_babel_box.Prelude.Streams
use dante_babel_box.Ah.{AdapterError, PreampState, PreampEvent, Update, Desk, report}
use dante_babel_box.Ah.Gain.{gain_db_to_byte, gain_byte_to_db, bool_to_byte, byte_to_bool}
use dante_babel_box.Ah.Midi
use dante_babel_box.Ah.Midi.{Parser, Plan, push, pending}

abbrev pub sysex_header : List ℕ
sysex_header = 240 ∷ 0 ∷ 0 ∷ 26 ∷ 80 ∷ 18 ∷ 1 ∷ 0 ∷ []

abbrev pub param_gain : ℕ
param_gain = 25

abbrev pub param_pad : ℕ
param_pad = 26

abbrev pub param_phantom : ℕ
param_phantom = 27

abbrev pub midi_n_inputs : ℕ
midi_n_inputs = 0

abbrev pub op_get_name : ℕ
op_get_name = 9

abbrev pub op_name_reply : ℕ
op_name_reply = 10

unfoldable pub channel_index : ℕ → Result AdapterError ℕ
channel_index channel =
    if not (leb 1 channel && leb channel 64)
    then err (AdapterError.unsupported_channel channel)
    else ok (channel - 1)

-- The three control changes: the channel, the parameter, the value.
unfoldable pub set_param : ℕ → ℕ → ℕ → Result AdapterError (List ℕ)
unfolding channel_index
set_param channel param value = do
  ch ← channel_index channel
  ok (176 ∷ 99 ∷ ch ∷ 176 ∷ 98 ∷ param ∷ 176 ∷ 6 ∷ value ∷ [])

unfoldable pub get_param : ℕ → ℕ → Result AdapterError (List ℕ)
unfolding channel_index
get_param channel param = do
  ch ← channel_index channel
  ok (sysex_header ++ midi_n_inputs ∷ 1 ∷ 11 ∷ param ∷ ch ∷ 247 ∷ [])

-- `identify` sends this, and waits for the reply.
unfoldable pub identify_request : List ℕ
identify_request = sysex_header ++ midi_n_inputs ∷ op_get_name ∷ 0 ∷ 247 ∷ []

unfoldable pub set_gain : ℕ → ℤ → Result AdapterError (List ℕ)
unfolding set_param
set_gain channel gain_db = set_param channel param_gain (gain_db_to_byte gain_db)

unfoldable pub set_phantom : ℕ → Bool → Result AdapterError (List ℕ)
unfolding set_param
set_phantom channel on = set_param channel param_phantom (bool_to_byte on)

-- `status & 0xF0`
abbrev pub high_bits : ℕ → ℕ
high_bits status = status / 16 * 16

-- The length of the message that a status octet begins.
abbrev pub message_len : ℕ → ℕ
message_len status =
    if high_bits status == 128
      || high_bits status == 144
      || high_bits status == 160
      || high_bits status == 176
      || high_bits status == 224
    then 3
    else if high_bits status == 192 || high_bits status == 208
    then 2
    else 1

-- The arms of the loop in `next_message`; the parser has no running status.
unfoldable pub plan : ℕ → Unit {0} → Plan (Unit {0})
plan status _ =
    if ltb status 128
    then Plan.skip
    else if status == 240
    then Plan.sysex tt
    else if message_len status == 1
    then Plan.skip
    else Plan.message [] (message_len status) tt

abbrev pub next_message : Parser (Unit {0}) → Option (List ℕ) × Parser (Unit {0})
next_message = Midi.next_message plan

pub record NrpnTracker : Type 0 where
  pub pending_ch : List (ℕ × ℕ)
  pub pending_param : List (ℕ × ℕ)

-- The data entry of a channel number and a parameter that are both selected.
abbrev pub selected : ℕ → ℕ → Option ℕ → Option ℕ → Option (ℕ × ℕ × ℕ × ℕ)
selected n value (some ch) (some param) = some (n, ch, param, value)
selected n value (some ch) none = none
selected n value none param = none

-- `feed` on a control change of MIDI channel `n`.
unfoldable pub feed_cc : NrpnTracker → ℕ → ℕ → ℕ → NrpnTracker × Option (ℕ × ℕ × ℕ × ℕ)
feed_cc t n cc value =
    if cc == 99
    then (record t { pending_ch = insert ◌==◌ n value t.pending_ch }, none)
    else if cc == 98
    then (record t { pending_param = insert ◌==◌ n value t.pending_param }, none)
    else if cc == 6
    then (t, selected n value (lookup ◌==◌ n t.pending_ch) (lookup ◌==◌ n t.pending_param))
    else (t, none)

unfoldable pub feed : NrpnTracker → List ℕ → NrpnTracker × Option (ℕ × ℕ × ℕ × ℕ)
unfolding feed_cc
feed t msg =
    if not (length msg == 3) || not (high_bits (get_or msg 0 0) == 176)
    then (t, none)
    else feed_cc t (get_or msg 0 0 % 16) (get_or msg 1 0) (get_or msg 2 0)

unfoldable pub parse_identify_reply : List ℕ → Bool
parse_identify_reply msg =
    leb 12 (length msg)
    && bytes_eq (take 8 msg) sysex_header
    && get_or msg (length msg - 1) 0 == 247
    && get_or (take (length msg - 9) (drop 8 msg)) 1 0 == op_name_reply

-- What the receive loop keeps and shares: the tracker, the entries and events, whether a call of
-- `identify` waits, and how many were answered.
pub record Shared : Type 0 where
  pub tracker : NrpnTracker
  pub desk : Desk
  pub pending_identify : Bool
  pub identified : ℕ

-- The update that a parameter's value is.
abbrev pub update_of : ℕ → ℕ → Option Update
update_of param value =
    if param == param_gain
    then some (Update.gain (gain_byte_to_db value))
    else if param == param_pad
    then some (Update.pad (byte_to_bool value))
    else if param == param_phantom
    then some (Update.phantom (byte_to_bool value))
    else none

abbrev pub apply_update : Shared → ℕ → Option Update → Shared
apply_update s channel none = s
apply_update s channel (some update) = record s { desk = report channel update s.desk }

-- A tuple that the tracker gives, on the state.
abbrev pub on_tuple : Shared → Option (ℕ × ℕ × ℕ × ℕ) → Shared
on_tuple s none = s
on_tuple s (some (n, ch, param, value)) =
    if not (n == midi_n_inputs) then s else apply_update s (ch + 1) (update_of param value)

-- One message in the receive loop.
unfoldable pub receive_message : Shared → List ℕ → Shared
unfolding parse_identify_reply feed
receive_message s msg =
    if parse_identify_reply msg
    then (if s.pending_identify
        then record s { pending_identify = false; identified = s.identified + 1 }
        else s)
    else on_tuple (record s { tracker = (feed s.tracker msg).0 }) (feed s.tracker msg).1

unfoldable pub receive_chunk : Parser (Unit {0}) → Shared → List ℕ → Parser (Unit {0}) × Shared
receive_chunk = Streams.read_chunk next_message push pending receive_message

unfoldable pub receive_loop :
    Parser (Unit {0}) → Shared → List (List ℕ) → Parser (Unit {0}) × Shared
receive_loop = Streams.read_loop next_message push pending receive_message
