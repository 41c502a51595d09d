-- ===== src/Ocp1/Client.antt =====
-- crates/ocp1/src/client.rs: the controller's end of a connection. The pending-request table and
-- the streams out of it are `Connection`; a call that waits for its response is a number. The
-- socket is what the tasks are given, piece by piece.
pub mod Reading
pub mod Delivery
pub mod Heartbeat
mod Tests
use dante_babel_box.Prelude.{
  ℕ, ◌+◌, ◌/◌, ◌%◌, ◌^◌, Bool, true, false, Option, none, some, List, [], ◌∷◌, ◌++◌, map, length,
  take, drop, ltb, ◌==◌, if◌then◌else◌, Result, ok, err,
}
use dante_babel_box.Prelude.Streams
use dante_babel_box.Prelude.Maps.{lookup, insert, remove}
use dante_babel_box.Ocp1.{Error}
use dante_babel_box.Ocp1.Pdu.{
  Message, Response, Notification, Command, pdu_len, decode_pdu, encode_command, encode_keepalive,
  into_result,
}

-- The read task: its buffer, or that it has returned.
pub data ReadState : Type 0 where
  reading : List ℕ → ReadState
  returned : ReadState

-- `let Ok(messages) = messages else { continue }`
abbrev pub decoded : Result Error (List Message) → List Message
decoded (ok messages) = messages
decoded (err e) = []

unfoldable pub take_frame : Result Error (Option ℕ) → List ℕ → Option (List Message) × ReadState
take_frame (ok none) buf = (none, ReadState.reading buf)
take_frame (err e) buf = (none, ReadState.returned)
take_frame (ok (some len)) buf =
    (some (decoded (decode_pdu (take len buf))), ReadState.reading (drop len buf))

-- One round of the inner loop: the messages of the next frame.
unfoldable pub next_frame : ReadState → Option (List Message) × ReadState
unfolding take_frame
next_frame (ReadState.reading buf) = take_frame (pdu_len buf) buf
next_frame ReadState.returned = (none, ReadState.returned)

-- `buf.extend_from_slice(..)`, while the task runs.
unfoldable pub extend : ReadState → List ℕ → ReadState
extend (ReadState.reading buf) chunk = ReadState.reading (buf ++ chunk)
extend ReadState.returned chunk = ReadState.returned

-- The octets that are not read yet.
abbrev pub unread : ReadState → ℕ
unread (ReadState.reading buf) = length buf
unread ReadState.returned = 0

-- What a call of `request` returns.
pub record Answer : Type 0 where
  pub call : ℕ
  pub result : Result Error Response

pub record Connection : Type 0 where
  -- the table, from handles to the calls that wait
  pub pending : List (ℕ × ℕ)
  -- what is sent to the writer task, to the calls and to the listeners
  pub outgoing : List (List ℕ)
  pub answers : List Answer
  pub notifications : List Notification

-- A handle to the connection: `Client`, whose other fields are shared.
pub record Client : Type 0 where
  pub next_handle : ℕ

-- `set_timeout`: another handle to the same connection, which counts from where this one stands.
unfoldable pub set_timeout : Client → Client
set_timeout client = record { next_handle = client.next_handle }

-- `AtomicU32::fetch_add(1)`
abbrev pub next_u32 : ℕ → ℕ
next_u32 n = (n + 1) % 2 ^ 32

-- The handle that a request takes, and the counter after it: 0 is skipped.
unfoldable pub take_handle : ℕ → ℕ × ℕ
take_handle counter =
    if counter == 0
    then (next_u32 counter, next_u32 (next_u32 counter))
    else (counter, next_u32 counter)

-- A call whose sender is dropped gets `Disconnected`.
abbrev pub dropped : Option ℕ → List Answer
dropped none = []
dropped (some call) = record { call = call; result = err Error.disconnected } ∷ []

-- `request` up to its wait, on a connection whose writer task runs or not: the handle goes into
-- the table, which drops a sender that is there under the same handle.
unfoldable pub request : Bool → ℕ → Command → Client → Connection → Client × Connection
unfolding take_handle
request running call cmd client c =
    let (handle, counter) = take_handle client.next_handle in
    let waiting = insert ◌==◌ handle call c.pending in
    let lost = dropped (lookup ◌==◌ handle c.pending) in
    (
      record { next_handle = counter },
      if running
          then record c {
            pending = waiting;
            answers = c.answers ++ lost;
            outgoing = c.outgoing ++ encode_command (record cmd { handle = handle }) true ∷ [];
          }
          else record c {
            pending = remove ◌==◌ handle waiting;
            answers =
                c.answers ++ lost ++ record { call = call; result = err Error.disconnected } ∷ [];
          },
    )

-- `request` when its wait is over: the entry under its handle goes.
unfoldable pub time_out : ℕ → ℕ → Connection → Connection
time_out call handle c = record c {
  pending = remove ◌==◌ handle c.pending;
  answers =
      c.answers
      ++ dropped (others (lookup ◌==◌ handle c.pending))
      ++ record { call = call; result = err Error.timeout } ∷ [];
}
  where
    -- the sender that goes with the entry, unless it is the call's own
    others : Option ℕ → Option ℕ
    others none = none
    others (some other) = if other == call then none else some other

abbrev pub answered : Response → Option ℕ → List Answer
answered r none = []
answered r (some call) = record { call = call; result = into_result r } ∷ []

-- The arms of `match message`.
unfoldable pub on_message : Connection → Message → Connection
on_message c (Message.response_message r) = record c {
  pending = remove ◌==◌ r.handle c.pending;
  answers = c.answers ++ answered r (lookup ◌==◌ r.handle c.pending);
}
on_message c (Message.notification_message n) = record c {
  notifications = c.notifications ++ n ∷ [];
}
on_message c (Message.keep_alive_message secs) = c
on_message c (Message.command_message cmd) = c

unfoldable pub on_messages : Connection → List Message → Connection
on_messages c [] = c
on_messages c (m ∷ ms) = on_messages (on_message c m) ms

-- What the read task does with a piece that arrives: it extends the buffer, and takes and hands
-- over the frames that are complete.
unfoldable pub read_chunk : ReadState → Connection → List ℕ → ReadState × Connection
read_chunk = Streams.read_chunk next_frame extend unread on_messages

unfoldable pub read_loop : ReadState → Connection → List (List ℕ) → ReadState × Connection
read_loop = Streams.read_loop next_frame extend unread on_messages

-- The end of the read task when the stream ends: everyone who waits is woken.
unfoldable pub hang_up : Connection → Connection
hang_up c = record c {
  pending = [];
  answers =
      c.answers
      ++ map (λ (entry : ℕ × ℕ). record { call = entry.1; result = err Error.disconnected })
          c.pending;
}

-- The seconds that a heartbeat names: `as_secs().clamp(1, u16::MAX)`, of milliseconds.
unfoldable pub heartbeat_secs : ℕ → ℕ
heartbeat_secs ms =
    if ltb (ms / 1000) 1 then 1 else if ltb 65535 (ms / 1000) then 65535 else ms / 1000

-- What the heartbeat task sends at every tick.
unfoldable pub heartbeat : ℕ → List ℕ
unfolding heartbeat_secs
heartbeat ms = encode_keepalive (heartbeat_secs ms)
