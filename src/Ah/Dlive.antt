-- ===== src/Ah/Dlive.antt =====
-- crates/preamp-adapter-ah/src/dlive.rs: the adapter of the dLive consoles. What is written to the
-- socket is the result of an operation; what arrives is given in pieces.
pub mod Sockets
pub mod Running
pub mod Updates
mod Tests
use dante_babel_box.Prelude.{
  ℕ, suc, ◌+◌, ◌-◌, ◌/◌, ◌*◌, ◌≤◌, Bool, true, false, ◌&&◌, ◌||◌, Option, none, some, List, [], ◌∷◌,
  ◌++◌, length, take, drop, get_or, ltb, leb, ◌==◌, if◌then◌else◌, Result, ok, err, ◌>>=◌,
}
use dante_babel_box.Prelude.Int.{ℤ}
use dante_babel_box.Prelude.Text.{bytes_eq}
use dante_babel_box.Prelude.Maps.{lookup, insert}
use dante_babel_box.Prelude.Streams
use dante_babel_box.Ah.{
  AdapterError, PreampState, PreampEvent, Update, unread, Desk, report, known_state, poll,
}
use dante_babel_box.Ah.Gain.{gain_db_to_byte, gain_byte_to_db, bool_to_byte, byte_to_bool}
use dante_babel_box.Ah.Midi
use dante_babel_box.Ah.Midi.{Parser, Plan, push, pending}

abbrev pub sysex_header : List ℕ
sysex_header = 240 ∷ 0 ∷ 0 ∷ 26 ∷ 80 ∷ 16 ∷ 1 ∷ 0 ∷ []

abbrev pub midi_n : ℕ
midi_n = 0

abbrev pub op_get_pad : ℕ
op_get_pad = 7

abbrev pub op_pad_status : ℕ
op_pad_status = 8

abbrev pub op_get_48v : ℕ
op_get_48v = 10

abbrev pub op_48v_status : ℕ
op_48v_status = 11

abbrev pub op_set_48v : ℕ
op_set_48v = 12

abbrev pub op_get_gain : ℕ
op_get_gain = 11

abbrev pub param_gain : ℕ
param_gain = 25

abbrev pub op_get_name : ℕ
op_get_name = 1

abbrev pub op_name_reply : ℕ
op_name_reply = 2

-- The 128 channels on the three ranges of sockets.
unfoldable pub socket_number : ℕ → Result AdapterError ℕ
socket_number channel =
    if leb 1 channel && leb channel 64
    then ok (channel - 1)
    else if leb 65 channel && leb channel 96
    then ok (64 + (channel - 65))
    else if leb 97 channel && leb channel 128
    then ok (96 + (channel - 97))
    else err (AdapterError.unsupported_channel channel)

unfoldable pub channel_from_socket : ℕ → Option ℕ
channel_from_socket mp =
    if leb mp 63
    then some (mp + 1)
    else if leb 64 mp && leb mp 95
    then some (65 + (mp - 64))
    else if leb 96 mp && leb mp 127
    then some (97 + (mp - 96))
    else none

-- The message that `sysex` sends.
unfoldable pub sysex : ℕ → ℕ → Option ℕ → List ℕ
sysex opcode mp value =
    sysex_header ++ midi_n ∷ opcode ∷ mp ∷ elim value [ none ↦ 247 ∷ [] | some v ↦ v ∷ 247 ∷ [] ]

-- `identify` sends this, and waits for the reply.
unfoldable pub identify_request : List ℕ
identify_request = sysex_header ++ midi_n ∷ op_get_name ∷ 0 ∷ 247 ∷ []

unfoldable pub set_gain : ℕ → ℤ → Result AdapterError (List ℕ)
unfolding socket_number
set_gain channel gain_db = do
  mp ← socket_number channel
  ok (224 ∷ mp ∷ gain_db_to_byte gain_db ∷ [])

unfoldable pub set_phantom : ℕ → Bool → Result AdapterError (List ℕ)
unfolding socket_number sysex
set_phantom channel on = do
  mp ← socket_number channel
  ok (sysex op_set_48v mp (some (bool_to_byte on)))

-- The three requests of `get_state`.
unfoldable pub state_requests : ℕ → List (List ℕ)
unfolding sysex
state_requests mp =
    sysex op_get_48v mp none
    ∷ sysex op_get_pad mp none
    ∷ (sysex_header ++ midi_n ∷ 5 ∷ op_get_gain ∷ param_gain ∷ mp ∷ 247 ∷ [])
    ∷ []

abbrev pub polled : Option PreampState → Result AdapterError PreampState
polled (some s) = ok s
polled none = err (AdapterError.protocol "no reply for the channel's preamp state")

-- The console is asked, and the entry is looked at again, 20 times at most.
abbrev pub ask_socket :
    Result AdapterError ℕ
    → List (Option PreampState)
    → List (List ℕ) × Result AdapterError PreampState
ask_socket (err e) later = ([], err e)
ask_socket (ok mp) later = (state_requests mp, polled (poll (take 20 later)))

abbrev pub cached_or :
    Option PreampState
    → List (List ℕ) × Result AdapterError PreampState
    → List (List ℕ) × Result AdapterError PreampState
cached_or (some s) asked = ([], ok s)
cached_or none asked = asked

-- `get_state`, with the entry as it is now and at each of the later polls: what is sent, and the
-- result.
unfoldable pub get_state :
    ℕ
    → Option PreampState
    → List (Option PreampState)
    → List (List ℕ) × Result AdapterError PreampState
unfolding socket_number state_requests poll
get_state channel now later = cached_or (known_state now) (ask_socket (socket_number channel) later)

-- `status & 0xF0`
abbrev pub high_bits : ℕ → ℕ
high_bits status = status / 16 * 16

unfoldable pub channel_msg_data_len : ℕ → Option ℕ
channel_msg_data_len status =
    if high_bits status == 128
      || high_bits status == 144
      || high_bits status == 160
      || high_bits status == 176
      || high_bits status == 224
    then some 2
    else if high_bits status == 192 || high_bits status == 208
    then some 1
    else none

-- A status octet, with the number of data octets behind it.
abbrev pub of_status : ℕ → Option ℕ → Plan (Option ℕ)
of_status first none = Plan.skip
of_status first (some n) = Plan.message [] (suc n) (some first)

-- A data octet under a running status.
abbrev pub of_running : ℕ → Option ℕ → Plan (Option ℕ)
of_running status none = Plan.skip
of_running status (some n) = Plan.message (status ∷ []) n (some status)

abbrev pub continue_running : Option ℕ → Plan (Option ℕ)
continue_running none = Plan.skip
continue_running (some status) = of_running status (channel_msg_data_len status)

-- The arms of the loop in `next_message`, by the first octet and the running status.
unfoldable pub plan : ℕ → Option ℕ → Plan (Option ℕ)
unfolding channel_msg_data_len
plan first running_status =
    if first == 240
    then Plan.sysex none
    else if leb 128 first
    then of_status first (channel_msg_data_len first)
    else continue_running running_status

abbrev pub next_message : Parser (Option ℕ) → Option (List ℕ) × Parser (Option ℕ)
next_message = Midi.next_message plan

-- `msg.starts_with(&SYSEX_HEADER) && msg.last() == Some(&0xF7)`, of 12 octets or more.
unfoldable pub is_sysex : List ℕ → Bool
is_sysex msg =
    leb 12 (length msg)
    && bytes_eq (take 8 msg) sysex_header
    && get_or msg (length msg - 1) 0 == 247

-- `&msg[8..msg.len() - 1]`
abbrev pub body_of : List ℕ → List ℕ
body_of msg = take (length msg - 9) (drop 8 msg)

unfoldable pub parse_identify_reply : List ℕ → Bool
unfolding is_sysex
parse_identify_reply msg = is_sysex msg && get_or (body_of msg) 1 0 == op_name_reply

-- An update for the channel of a socket, if there is one.
abbrev pub for_channel : Update → Option ℕ → Option (ℕ × Update)
for_channel update none = none
for_channel update (some channel) = some (channel, update)

abbrev pub for_socket : ℕ → Update → Option (ℕ × Update)
for_socket mp update = for_channel update (channel_from_socket mp)

abbrev pub body_update : List ℕ → Option (ℕ × Update)
body_update (n ∷ opcode ∷ mp ∷ value ∷ []) =
    if opcode == op_48v_status
    then for_socket mp (Update.phantom (byte_to_bool value))
    else if opcode == op_pad_status
    then for_socket mp (Update.pad (byte_to_bool value))
    else none
body_update _ = none

-- What a message says: `update` in `handle_message`.
unfoldable pub update_of : List ℕ → Option (ℕ × Update)
unfolding channel_from_socket is_sysex
update_of msg =
    if length msg == 3 && high_bits (get_or msg 0 0) == 224
    then for_socket (get_or msg 1 0) (Update.gain (gain_byte_to_db (get_or msg 2 0)))
    else if is_sysex msg
    then body_update (body_of msg)
    else none

-- What the receive loop shares: the entries and events, whether a call of `identify` waits, and how
-- many were answered.
pub record Shared : Type 0 where
  pub desk : Desk
  pub pending_identify : Bool
  pub identified : ℕ

abbrev pub apply_update : Shared → Option (ℕ × Update) → Shared
apply_update s none = s
apply_update s (some (channel, update)) = record s { desk = report channel update s.desk }

unfoldable pub handle_message : Shared → List ℕ → Shared
unfolding update_of
handle_message s msg = apply_update s (update_of msg)

-- One message in the receive loop.
unfoldable pub receive_message : Shared → List ℕ → Shared
unfolding parse_identify_reply handle_message
receive_message s msg =
    if parse_identify_reply msg
    then (if s.pending_identify
        then record s { pending_identify = false; identified = s.identified + 1 }
        else s)
    else handle_message s msg

unfoldable pub receive_chunk : Parser (Option ℕ) → Shared → List ℕ → Parser (Option ℕ) × Shared
receive_chunk = Streams.read_chunk next_message push pending receive_message

unfoldable pub receive_loop :
    Parser (Option ℕ) → Shared → List (List ℕ) → Parser (Option ℕ) × Shared
receive_loop = Streams.read_loop next_message push pending receive_message
