-- ===== src/Mic/Shure.antt =====
-- crates/mic-adapter-shure/src/shure.rs: the command strings of the Shure receivers, over ASCII: the
-- octets that arrive are below 128, so that each is a character. What is written to the socket is the
-- result of an operation; what arrives is given in pieces.
pub mod Framing
pub mod Words
pub mod Replies
mod Tests
use Prim.Native.Nat.{zero, suc}
use dante_babel_box.Prelude.{
  ℕ, ◌+◌, ◌-◌, ◌*◌, ◌^◌, Bool, true, false, ◌&&◌, ◌||◌, Option, none, some, List, [], ◌∷◌, ◌++◌,
  length, take, drop, ltb, leb, ◌==◌, if◌then◌else◌,
}
use dante_babel_box.Prelude.Int.{ltb_ℤ, ◌+ℤ◌, ℤ, pos, negsuc, sub_ℕ, ◌-ℤ◌}
use dante_babel_box.Prelude.Text.{codes, bytes_eq, decimal, read_number}
use dante_babel_box.Prelude.Maps.{lookup, insert}
use dante_babel_box.Prelude.Streams
use dante_babel_box.Mic.{AntennaDiversity, MicState, MicEvent}

-- The message that `send` writes: `< {message} >`
unfoldable pub framed : List ℕ → List ℕ
framed message = 60 ∷ 32 ∷ message ++ 32 ∷ 62 ∷ []

-- `connect` enables the metering of all channels.
unfoldable pub metering_request : List ℕ
unfolding framed
metering_request = framed (codes "SET 0 METER_RATE 00500")

unfoldable pub set_mute : ℕ → Bool → List ℕ
unfolding framed
set_mute channel muted = framed (
    codes "SET "
    ++ decimal channel
    ++ codes " AUDIO_MUTE "
    ++ (if muted then codes "ON" else codes "OFF"))

abbrev pub empty_state : MicState
empty_state = record {
  battery_percent = none;
  battery_bars = none;
  battery_minutes_remaining = none;
  rf_level_dbm = none;
  rf_quality_percent = none;
  audio_level_dbfs = none;
  muted = false;
  frequency_mhz = none;
  antenna = none;
}

-- `str::find` of a character.
unfoldable pub position : ℕ → List ℕ → Option ℕ
position c [] = none
position c (b ∷ bs) =
    if b == c then some 0 else elim (position c bs) [ none ↦ none | some i ↦ some (suc i) ]

-- `char::is_whitespace`, of ASCII.
abbrev pub is_whitespace : ℕ → Bool
is_whitespace b = leb 9 b && leb b 13 || b == 32

abbrev pub flush : List ℕ → List (List ℕ) → List (List ℕ)
flush [] ws = ws
flush (b ∷ bs) ws = (b ∷ bs) ∷ ws

-- The word that a text begins with, and the words behind it.
unfoldable pub split : List ℕ → List ℕ × List (List ℕ)
split [] = ([], [])
split (b ∷ bs) = let (w, ws) = split bs in if is_whitespace b then ([], flush w ws) else (b ∷ w, ws)

-- `trim().split_whitespace()`: white space at the ends makes no word.
unfoldable pub split_whitespace : List ℕ → List (List ℕ)
unfolding split
split_whitespace bs = flush (split bs).0 (split bs).1

abbrev pub to_end : List ℕ → ℕ → Option ℕ → Option (List (List ℕ)) × List ℕ
to_end buf start none = (none, buf)
to_end buf start (some i) =
    (some (split_whitespace (take (i - 1) (drop (start + 1) buf))), drop (start + i + 1) buf)

abbrev pub from_start : List ℕ → Option ℕ → Option (List (List ℕ)) × List ℕ
from_start buf none = (none, buf)
from_start buf (some start) = to_end buf start (position 62 (drop start buf))

unfoldable pub next_message : List ℕ → Option (List (List ℕ)) × List ℕ
unfolding position split_whitespace
next_message buf = from_start buf (position 60 buf)

-- `str::parse` of an unsigned integer up to `limit`: a sign `+` is allowed, and digits only.
abbrev pub all_read : ℕ → List ℕ → ℕ × List ℕ → Option ℕ
all_read limit [] answer = none
all_read limit (b ∷ bs) (n, []) = if leb n limit then some n else none
all_read limit (b ∷ bs) (n, rest ∷ more) = none

unfoldable pub parse_uint : ℕ → List ℕ → Option ℕ
parse_uint limit [] = none
parse_uint limit (b ∷ bs) =
    if b == 43
    then all_read limit bs (read_number 0 bs)
    else all_read limit (b ∷ bs) (read_number 0 (b ∷ bs))

-- `str::parse` of an `i16`.
abbrev pub signed : Option ℕ → Option ℤ
signed none = none
signed (some n) = some (sub_ℕ 0 n)

abbrev pub unsigned : Option ℕ → Option ℤ
unsigned none = none
unsigned (some n) = some (pos n)

unfoldable pub parse_i16 : List ℕ → Option ℤ
unfolding parse_uint
parse_i16 [] = none
parse_i16 (b ∷ bs) =
    if b == 45
    then signed (all_read 32768 bs (read_number 0 bs))
    else unsigned (parse_uint 32767 (b ∷ bs))

pub data ParsedUpdate : Type 0 where
  mute : ℕ → Bool → ParsedUpdate
  battery_charge : ℕ → Option ℕ → ParsedUpdate
  battery_run_time : ℕ → Option ℕ → ParsedUpdate
  frequency : ℕ → Option ℕ → ParsedUpdate
  sample : ℕ → Option AntennaDiversity → ℤ → ParsedUpdate

-- Channel 0 is malformed in a reply.
abbrev pub concrete : Option ℕ → Option ℕ
concrete none = none
concrete (some ch) = if ch == 0 then none else some ch

unfoldable pub parse_channel : List ℕ → Option ℕ
unfolding parse_uint
parse_channel token = concrete (parse_uint 65535 token)

abbrev pub with_channel : Option ℕ → (ℕ → ParsedUpdate) → Option ParsedUpdate
with_channel none f = none
with_channel (some ch) f = some (f ch)

abbrev pub with_number : Option ℕ → (ℕ → Option ParsedUpdate) → Option ParsedUpdate
with_number none f = none
with_number (some n) f = f n

abbrev pub with_level : Option ℤ → (ℤ → Option ParsedUpdate) → Option ParsedUpdate
with_level none f = none
with_level (some n) f = f n

-- The arms for the four parameters of a `REP`.
unfoldable pub parse_reply : List ℕ → List ℕ → List ℕ → Option ParsedUpdate
unfolding parse_channel
parse_reply ch parameter value =
    if bytes_eq parameter (codes "AUDIO_MUTE")
    then with_channel (parse_channel ch) (λ c. ParsedUpdate.mute c (bytes_eq value (codes "ON")))
    else if bytes_eq parameter (codes "BATT_CHARGE")
    then with_number (parse_uint 65535 value) (λ raw.
      with_channel (parse_channel ch)
        (λ c. ParsedUpdate.battery_charge c (if leb raw 100 then some raw else none)))
    else if bytes_eq parameter (codes "BATT_RUN_TIME")
    then with_number (parse_uint 4294967295 value) (λ raw.
      with_channel (parse_channel ch)
        (λ c. ParsedUpdate.battery_run_time c (if ltb raw 65535 then some raw else none)))
    else if bytes_eq parameter (codes "FREQUENCY")
    then with_number (parse_uint 4294967295 value)
        (λ raw. with_channel (parse_channel ch) (λ c. ParsedUpdate.frequency c (some raw)))
    else none

abbrev pub antenna_of : List ℕ → Option AntennaDiversity
antenna_of nn =
    if bytes_eq nn (codes "AX")
    then some AntennaDiversity.a
    else if bytes_eq nn (codes "XB")
    then some AntennaDiversity.b
    else if bytes_eq nn (codes "XX")
    then some AntennaDiversity.inactive
    else none

-- `rf_raw - 128` on an `i16`, which wraps as in a release build.
unfoldable pub rf_level : ℤ → ℤ
unfolding ◌-ℤ◌ ◌+ℤ◌
rf_level rf_raw =
    let level = rf_raw -ℤ pos 128 in
    if ltb_ℤ level (negsuc 32767) then level +ℤ pos 65536 else level

unfoldable pub parse_sample : List ℕ → List ℕ → List ℕ → List ℕ → Option ParsedUpdate
unfolding parse_channel parse_i16 rf_level
parse_sample ch nn aaa eee = with_level (parse_i16 aaa) (λ rf_raw.
    with_number (parse_uint 255 eee) (λ audio_raw.
      with_channel (parse_channel ch)
        (λ c. ParsedUpdate.sample c (antenna_of nn) (rf_level rf_raw))))

unfoldable pub parse_message : List (List ℕ) → Option ParsedUpdate
unfolding parse_reply parse_sample
parse_message (kind ∷ ch ∷ parameter ∷ value ∷ []) =
    if bytes_eq kind (codes "REP") then parse_reply ch parameter value else none
parse_message (kind ∷ ch ∷ parameter ∷ nn ∷ aaa ∷ eee ∷ []) =
    if bytes_eq kind (codes "SAMPLE") && bytes_eq parameter (codes "ALL")
    then parse_sample ch nn aaa eee
    else none
parse_message _ = none

-- What the receive loop shares: the entries of the channels, and the events that were sent.
pub record Shared : Type 0 where
  pub state : List (ℕ × MicState)
  pub events : List MicEvent

-- `guard.entry(channel).or_insert_with(empty_state)`, as a reading.
abbrev pub entry_or_empty : Option MicState → MicState
entry_or_empty none = empty_state
entry_or_empty (some entry) = entry

abbrev pub channel_of : ParsedUpdate → ℕ
channel_of (ParsedUpdate.mute channel muted) = channel
channel_of (ParsedUpdate.battery_charge channel percent) = channel
channel_of (ParsedUpdate.battery_run_time channel minutes) = channel
channel_of (ParsedUpdate.frequency channel mhz) = channel
channel_of (ParsedUpdate.sample channel antenna rf_dbm) = channel

-- The arms of `match update`, on the channel's entry.
unfoldable pub merge : ParsedUpdate → MicState → MicState
merge (ParsedUpdate.mute channel muted) entry = record entry { muted = muted }
merge (ParsedUpdate.battery_charge channel percent) entry = record entry {
  battery_percent = percent;
}
merge (ParsedUpdate.battery_run_time channel minutes) entry = record entry {
  battery_minutes_remaining = minutes;
}
merge (ParsedUpdate.frequency channel mhz) entry = record entry { frequency_mhz = mhz }
merge (ParsedUpdate.sample channel antenna rf_dbm) entry = record entry {
  antenna = antenna;
  rf_level_dbm = some rf_dbm;
}

abbrev pub apply_update : Shared → Option ParsedUpdate → Shared
apply_update s none = s
apply_update s (some update) =
    let new_state = merge update (entry_or_empty (lookup ◌==◌ (channel_of update) s.state)) in
    record {
      state = insert ◌==◌ (channel_of update) new_state s.state;
      events = s.events ++ record { channel = channel_of update; state = new_state } ∷ [];
    }

-- One message in the receive loop.
unfoldable pub receive_message : Shared → List (List ℕ) → Shared
unfolding parse_message merge
receive_message s tokens = apply_update s (parse_message tokens)

abbrev pub push : List ℕ → List ℕ → List ℕ
push buf data_octets = buf ++ data_octets

unfoldable pub receive_chunk : List ℕ → Shared → List ℕ → List ℕ × Shared
receive_chunk = Streams.read_chunk next_message push length receive_message

unfoldable pub receive_loop : List ℕ → Shared → List (List ℕ) → List ℕ × Shared
receive_loop = Streams.read_loop next_message push length receive_message

-- `get_state` up to its polls: the entry that there is, or what is sent to ask for it.
abbrev pub asked_for : ℕ → Option MicState → Option MicState × List (List ℕ)
asked_for channel (some state) = (some state, [])
asked_for channel none = (none, framed (codes "GET " ++ decimal channel ++ codes " ALL") ∷ [])

unfoldable pub get_state : ℕ → Shared → Option MicState × List (List ℕ)
get_state channel s = asked_for channel (lookup ◌==◌ channel s.state)
