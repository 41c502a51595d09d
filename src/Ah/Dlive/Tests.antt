-- ===== src/Ah/Dlive/Tests.antt =====
-- dlive.rs at concrete inputs.
use dante_babel_box.Prelude.{
  ℕ, Bool, true, false, Option, none, some, List, [], ◌∷◌, ◌≡◌, refl, arith, ok, err, ◌<◌, ◌≤◌, ◌+◌,
}
use dante_babel_box.Prelude.Int.{pos}
use dante_babel_box.Prelude.Maps.{lookup}
use dante_babel_box.Prelude.Streams.{drain}
use dante_babel_box.Ah.{poll, AdapterError, PreampState, unread, gain_known, only_gain}
use dante_babel_box.Ah.Gain.{gain_db_to_byte, gain_byte_to_db, gain_db_to_byte_near}
use dante_babel_box.Ah.Reports.{Reports}
use dante_babel_box.Ah.Midi.{Parser, push, pending}
use dante_babel_box.Ah.Dlive.{
  Shared, socket_number, set_gain, next_message, receive_message, receive_loop, receive_chunk,
  get_state, channel_msg_data_len,
}
use dante_babel_box.Ah.Dlive.Running.{Sent, wire, messages, receive_loop-concat, drain-wire}
use dante_babel_box.Ah.Dlive.Updates.{receive_message-set_gain, get_state_known}

abbrev fresh : Shared
fresh = record {
  desk = record { state = []; events = [] };
  pending_identify = false;
  identified = 0;
}

abbrev idle : Parser (Option ℕ)
idle = record { buf = []; running = none }

-- 10 dB is the octet 0C of the protocol document's table, 30 dB is 3A.
ten_db : gain_db_to_byte (pos 1270000) ≡ 12
unfolding gain_db_to_byte
ten_db = refl

thirty_db : gain_db_to_byte (pos 3810000) ≡ 58
unfolding gain_db_to_byte
thirty_db = refl

socket_of_97 : socket_number 97 ≡ ok 96
unfolding socket_number
socket_of_97 = refl

no_socket : set_gain 129 (pos 0) ≡ err (AdapterError.unsupported_channel 129)
unfolding set_gain socket_number
no_socket = refl

set_gain_65 : set_gain 65 (pos 1270000) ≡ ok (224 ∷ 64 ∷ 12 ∷ [])
unfolding set_gain socket_number gain_db_to_byte
set_gain_65 = refl

gain_db_to_byte_near_example :
    (gain_db_to_byte (pos 9000000) < 128)
    × (gain_byte_to_db (gain_db_to_byte (pos 9000000)) ≤ 7620000 + 27500)
    × (7620000 ≤ gain_byte_to_db (gain_db_to_byte (pos 9000000)) + 27500)
    × (gain_db_to_byte (pos (gain_byte_to_db 58)) ≡ 58)
gain_db_to_byte_near_example = gain_db_to_byte_near (pos 9000000) 58 (omega arith)

-- A gain message that is cut behind its second octet.
receive_loop-concat_example :
    receive_loop idle fresh ((5 ∷ 224 ∷ 64 ∷ []) ∷ (12 ∷ []) ∷ [])
    ≡ receive_chunk idle fresh (5 ∷ 224 ∷ 64 ∷ 12 ∷ [])
receive_loop-concat_example = receive_loop-concat idle fresh (5 ∷ 224 ∷ 64 ∷ []) ((12 ∷ []) ∷ [])

-- Two gain messages of which the second has no status octet, and a system exclusive message.
abbrev three_sent : List (Bool × Sent)
three_sent =
    (true, Sent.voice 224 (64 ∷ 12 ∷ []))
    ∷ (true, Sent.voice 224 (65 ∷ 13 ∷ []))
    ∷ (false, Sent.sysex (0 ∷ 26 ∷ []))
    ∷ []

wire_three : wire none three_sent ≡ 224 ∷ 64 ∷ 12 ∷ 65 ∷ 13 ∷ 240 ∷ 0 ∷ 26 ∷ 247 ∷ []
wire_three = refl

drain-wire_example :
    drain next_message push pending (record { buf = wire none three_sent; running = none })
    ≡ (messages three_sent, record { buf = []; running = none })
unfolding channel_msg_data_len
drain-wire_example = drain-wire none three_sent (
  (omega arith, refl, (omega arith, (omega arith, tt))),
  (
    (omega arith, refl, (omega arith, (omega arith, tt))),
    (((λ e. omega (arith, e)), ((λ e. omega (arith, e)), tt)), tt),
  ),
)

receive_message-set_gain_example :
    Reports fresh.desk
      (receive_message fresh (224 ∷ 64 ∷ 12 ∷ [])).desk
      65
      (record unread { gain_db = some (gain_byte_to_db (gain_db_to_byte (pos 1270000))) })
      only_gain
unfolding lookup
receive_message-set_gain_example =
    receive_message-set_gain fresh 65 (pos 1270000) (224 ∷ 64 ∷ 12 ∷ []) set_gain_65

abbrev read_state : PreampState
read_state = record unread { gain_db = some 1295000 }

-- The entry is made by a phantom report first, and has a gain at the second poll.
found_later : (get_state 65 (some unread) (some unread ∷ some read_state ∷ [])).1 ≡ ok read_state
unfolding get_state socket_number poll
found_later = refl

get_state_known_example :
    (gain_known read_state ≡ true) × (get_state 65 (some read_state) [] ≡ ([], ok read_state))
get_state_known_example =
    get_state_known 65 (some unread) (some unread ∷ some read_state ∷ []) read_state found_later
