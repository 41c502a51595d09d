-- ===== src/Aphex.antt =====
-- crates/preamp-adapter-aphex/src/codec.rs: the parametric SysEx string of the 1788A. An octet is a
-- number below 256.
pub mod RoundTrip
pub mod Canonical
mod Tests
use dante_babel_box.Prelude.{
  ℕ, ◌+◌, ◌-◌, ◌*◌, ◌%◌, String, Bool, true, false, ◌&&◌, ◌||◌, not, Option, none, some, List, [],
  ◌∷◌, ◌++◌, length, take, drop, get_or, ltb, leb, ◌==◌, if◌then◌else◌, Result, ok, err, ◌>>=◌,
  ◌>>◌, refuse_if, ok_or,
}

abbrev pub sysex_start : ℕ
sysex_start = 240

abbrev pub sysex_end : ℕ
sysex_end = 247

abbrev pub aphex_manufacturer_id : List ℕ
aphex_manufacturer_id = 0 ∷ 0 ∷ 56 ∷ []

abbrev pub max_data_byte : ℕ
max_data_byte = 127

abbrev pub max_commands : ℕ
max_commands = 64

abbrev pub header_len : ℕ
header_len = 7

pub data Control : Type 0 where
  input_gain main_max_out aux_max_out phantom_power low_cut_filter limiter : Control
  polarity_reverse mute pad test_tone_minus_20_db test_tone_0_db test_tone : Control
  request_parameter_dump request_extended_dump : Control

pub data Error : Type 0 where
  not_a_data_byte : String → ℕ → Error
  value_out_of_range : Control → ℕ → ℕ → ℕ → Error
  not_a_switch : Control → Error
  no_commands truncated unterminated : Error
  too_many_commands ragged_body not_sysex unknown_opcode : ℕ → Error
  foreign_manufacturer : ℕ → ℕ → ℕ → Error

unfoldable pub opcode : Control → ℕ
opcode Control.input_gain = 0
opcode Control.main_max_out = 1
opcode Control.aux_max_out = 2
opcode Control.phantom_power = 3
opcode Control.low_cut_filter = 4
opcode Control.limiter = 5
opcode Control.polarity_reverse = 6
opcode Control.mute = 7
opcode Control.pad = 8
opcode Control.test_tone_minus_20_db = 10
opcode Control.test_tone_0_db = 11
opcode Control.test_tone = 23
opcode Control.request_parameter_dump = 32
opcode Control.request_extended_dump = 86

unfoldable pub from_opcode : ℕ → Option Control
from_opcode code =
    if code == 0
    then some Control.input_gain
    else if code == 1
    then some Control.main_max_out
    else if code == 2
    then some Control.aux_max_out
    else if code == 3
    then some Control.phantom_power
    else if code == 4
    then some Control.low_cut_filter
    else if code == 5
    then some Control.limiter
    else if code == 6
    then some Control.polarity_reverse
    else if code == 7
    then some Control.mute
    else if code == 8
    then some Control.pad
    else if code == 10
    then some Control.test_tone_minus_20_db
    else if code == 11
    then some Control.test_tone_0_db
    else if code == 23
    then some Control.test_tone
    else if code == 32
    then some Control.request_parameter_dump
    else if code == 86
    then some Control.request_extended_dump
    else none

unfoldable pub value_range : Control → ℕ × ℕ
value_range Control.input_gain = (26, 65)
value_range Control.main_max_out = (0, 27)
value_range Control.aux_max_out = (0, 27)
value_range Control.test_tone = (0, 2)
value_range Control.request_parameter_dump = (1, 1)
value_range Control.request_extended_dump = (0, max_data_byte)
value_range Control.phantom_power = (0, 1)
value_range Control.low_cut_filter = (0, 1)
value_range Control.limiter = (0, 1)
value_range Control.polarity_reverse = (0, 1)
value_range Control.mute = (0, 1)
value_range Control.pad = (0, 1)
value_range Control.test_tone_minus_20_db = (0, 1)
value_range Control.test_tone_0_db = (0, 1)

unfoldable pub is_switch : Control → Bool
is_switch Control.input_gain = false
is_switch Control.main_max_out = false
is_switch Control.aux_max_out = false
is_switch Control.test_tone = false
is_switch Control.request_parameter_dump = false
is_switch Control.request_extended_dump = false
is_switch Control.phantom_power = true
is_switch Control.low_cut_filter = true
is_switch Control.limiter = true
is_switch Control.polarity_reverse = true
is_switch Control.mute = true
is_switch Control.pad = true
is_switch Control.test_tone_minus_20_db = true
is_switch Control.test_tone_0_db = true

pub record DeviceAddress : Type 0 where
  pub midi_channel : ℕ
  pub midi_device : ℕ
  pub net_number : ℕ

-- `DeviceAddress::new`
unfoldable pub new_address : ℕ → ℕ → ℕ → Result Error DeviceAddress
new_address midi_channel midi_device net_number = do
  refuse_if (ltb max_data_byte midi_channel) (Error.not_a_data_byte "midi_channel" midi_channel)
  refuse_if (ltb max_data_byte midi_device) (Error.not_a_data_byte "midi_device" midi_device)
  refuse_if (ltb max_data_byte net_number) (Error.not_a_data_byte "net_number" net_number)
  ok (record { midi_channel = midi_channel; midi_device = midi_device; net_number = net_number })

pub record Command : Type 0 where
  pub control : Control
  pub mic_channel : ℕ
  pub value : ℕ

-- `Command::new`
unfoldable pub new_command : Control → ℕ → ℕ → Result Error Command
unfolding value_range
new_command control mic_channel value = do
  refuse_if (ltb max_data_byte mic_channel) (Error.not_a_data_byte "mic_channel" mic_channel)
  refuse_if (ltb value (value_range control).0 || ltb (value_range control).1 value)
      (Error.value_out_of_range control value (value_range control).0 (value_range control).1)
  ok (record { control = control; mic_channel = mic_channel; value = value })

unfoldable pub input_gain_db : ℕ → ℕ → Result Error Command
unfolding new_command
input_gain_db mic_channel gain_db = new_command Control.input_gain mic_channel gain_db

unfoldable pub switch : Control → ℕ → Bool → Result Error Command
unfolding is_switch new_command
switch control mic_channel on = do
  refuse_if (not (is_switch control)) (Error.not_a_switch control)
  new_command control mic_channel (if on then 1 else 0)

unfoldable pub to_bytes : Command → List ℕ
unfolding opcode
to_bytes c = opcode c.control ∷ c.mic_channel ∷ c.value ∷ []

pub record Message : Type 0 where
  pub address : DeviceAddress
  pub commands : List Command

-- `Message::new`
unfoldable pub new_message : DeviceAddress → List Command → Result Error Message
new_message address commands = do
  refuse_if (length commands == 0) Error.no_commands
  refuse_if (ltb max_commands (length commands)) (Error.too_many_commands (length commands))
  ok (record { address = address; commands = commands })

unfoldable pub all_bytes : List Command → List ℕ
unfolding to_bytes
all_bytes [] = []
all_bytes (c ∷ cs) = to_bytes c ++ all_bytes cs

-- `Message::encode`
unfoldable pub encode : Message → List ℕ
unfolding all_bytes
encode m =
    (sysex_start ∷ [])
    ++ (aphex_manufacturer_id
        ++ (m.address.midi_channel
            ∷ m.address.midi_device
            ∷ m.address.net_number
            ∷ (all_bytes m.commands ++ sysex_end ∷ [])))

-- The commands of a body, three octets each; what is left over is dropped.
unfoldable pub commands_of : List ℕ → Result Error (List Command)
unfolding from_opcode new_command
commands_of [] = ok []
commands_of (a ∷ []) = ok []
commands_of (a ∷ b ∷ []) = ok []
commands_of (a ∷ b ∷ c ∷ rest) = do
  control ← ok_or (from_opcode a) (Error.unknown_opcode a)
  command ← new_command control b c
  commands ← commands_of rest
  ok (command ∷ commands)

-- `bytes[i]`; the code only reads within a frame of at least eleven octets.
abbrev pub octet : List ℕ → ℕ → ℕ
octet bytes i = get_or bytes i 0

abbrev pub is_aphex : List ℕ → Bool
is_aphex bytes = octet bytes 1 == 0 && octet bytes 2 == 0 && octet bytes 3 == 56

-- `&bytes[HEADER_LEN..bytes.len() - 1]`
abbrev pub body : List ℕ → List ℕ
body bytes = drop header_len (take (length bytes - 1) bytes)

-- `Message::decode`
unfoldable pub decode : List ℕ → Result Error Message
unfolding new_address commands_of new_message
decode bytes = do
  refuse_if (ltb (length bytes) (header_len + 3 + 1)) Error.truncated
  refuse_if (not (octet bytes 0 == sysex_start)) (Error.not_sysex (octet bytes 0))
  refuse_if (not (octet bytes (length bytes - 1) == sysex_end)) Error.unterminated
  refuse_if (not (is_aphex bytes))
      (Error.foreign_manufacturer (octet bytes 1) (octet bytes 2) (octet bytes 3))
  refuse_if (not (length (body bytes) % 3 == 0)) (Error.ragged_body (length (body bytes)))
  address ← new_address (octet bytes 4) (octet bytes 5) (octet bytes 6)
  commands ← commands_of (body bytes)
  new_message address commands
