-- ===== src/Ocp1/Client/Tests.antt =====
-- client.rs at concrete inputs.
use dante_babel_box.Prelude.Maps.{lookup}
use dante_babel_box.Prelude.{
  ◌==◌, ℕ, true, none, List, [], ◌∷◌, ◌++◌, ◌≡◌, refl, arith, take, drop, err,
}
use dante_babel_box.Ocp1.{Error}
use dante_babel_box.Ocp1.Pdu.{Message, Response, Command, into_result}
use dante_babel_box.Ocp1.Client.{
  ReadState, Connection, Client, request, on_message, read_loop, read_chunk, take_handle,
  set_timeout,
}
use dante_babel_box.Ocp1.Client.Reading.{read_loop-concat_pieces}
use dante_babel_box.Ocp1.Client.Delivery.{Event, request_answered, request_copy_collides, later}

abbrev get_gain : Command
get_gain = record {
  handle = 0;
  target = 4097;
  method = record { def_level = 4; index = 1 };
  param_count = 0;
  params = [];
}

abbrev fresh : Connection
fresh = record { pending = []; outgoing = []; answers = []; notifications = [] }

abbrev first : Client
first = record { next_handle = 1 }

-- A client whose counter is about to wrap.
abbrev last_one : Client
last_one = record { next_handle = 4294967295 }

abbrev reply : ℕ → Response
reply handle = record { handle = handle; status = 0; param_count = 1; params = 7 ∷ [] }

take_zero : take_handle 0 ≡ (1, 2)
unfolding take_handle
take_zero = refl

abbrev stream : List ℕ
stream = 59 ∷ 0 ∷ 1 ∷ 0 ∷ 0 ∷ 0 ∷ 11 ∷ 4 ∷ 0 ∷ 1 ∷ 0 ∷ 5 ∷ 59 ∷ 0 ∷ 1 ∷ []

read_loop-concat_pieces_example :
    read_loop (ReadState.reading []) fresh (take 5 stream ∷ drop 5 stream ∷ [])
    ≡ read_chunk (ReadState.reading []) fresh stream
read_loop-concat_pieces_example =
    read_loop-concat_pieces (ReadState.reading []) fresh (take 5 stream) (drop 5 stream ∷ [])

-- Two requests across the wrap; the first is answered after the second has timed out.
abbrev meanwhile : List Event
meanwhile =
    Event.requested true 2 get_gain
    ∷ Event.timed_out 2 1
    ∷ Event.received (Message.keep_alive_message 5)
    ∷ []

request_answered_example :
    ((on_message
        (later 1 get_gain last_one fresh meanwhile).1
        (Message.response_message (reply 4294967295))).answers
      ≡ (later 1 get_gain last_one fresh meanwhile).1.answers
        ++ record { call = 1; result = into_result (reply 4294967295) } ∷ [])
    × (lookup ◌==◌ 4294967295
          (on_message
            (later 1 get_gain last_one fresh meanwhile).1
            (Message.response_message (reply 4294967295))).pending
        ≡ none)
unfolding take_handle
request_answered_example =
    request_answered 1 get_gain last_one fresh meanwhile (reply 4294967295) (omega arith)
      (omega arith) (tt, ((λ e. omega (arith, e)), (tt, tt))) refl

request_copy_collides_example :
    (request true 2 get_gain (set_timeout first) (request true 1 get_gain first fresh).1).1.answers
    ≡ (request true 1 get_gain first fresh).1.answers
      ++ record { call = 1; result = err Error.disconnected } ∷ []
request_copy_collides_example = request_copy_collides 1 2 get_gain get_gain first fresh
