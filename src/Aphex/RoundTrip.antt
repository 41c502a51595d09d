-- ===== src/Aphex/RoundTrip.antt =====
-- `Message::encode` of the Aphex codec against `Message::decode`.
use dante_babel_box.Prelude.{
  ℕ, suc, ◌+◌, ◌-◌, ◌*◌, ◌%◌, ◌≤◌, true, false, some, List, [], ◌∷◌, ◌++◌, ◌≡◌, refl, arith, length,
  get_or, ltb, ◌==◌, ok, ◌>>=◌, All, length-append, take-append,
}
use dante_babel_box.Aphex.{
  is_aphex, Control, opcode, from_opcode, value_range, DeviceAddress, new_address, Command,
  new_command, to_bytes, Message, new_message, all_bytes, encode, commands_of, octet, body,
  is_aphex, decode, max_data_byte, max_commands, sysex_end, sysex_start,
}

-- What the constructors check.
pub record IsAddress (a : DeviceAddress) : Type 0 where
  pub midi_channel : a.midi_channel ≤ max_data_byte
  pub midi_device : a.midi_device ≤ max_data_byte
  pub net_number : a.net_number ≤ max_data_byte

pub record IsCommand (c : Command) : Type 0 where
  pub mic_channel : c.mic_channel ≤ max_data_byte
  pub at_least : (value_range c.control).0 ≤ c.value
  pub at_most : c.value ≤ (value_range c.control).1

pub record IsMessage (m : Message) : Type 0 where
  pub address : IsAddress m.address
  pub commands : All IsCommand m.commands
  pub some_commands : 1 ≤ length m.commands
  pub few_commands : length m.commands ≤ max_commands

pub from_opcode-opcode : (c : Control) → from_opcode (opcode c) ≡ some c
unfolding from_opcode opcode
from_opcode-opcode c = ground arith

pub new_command-IsCommand :
    (c : Command) → IsCommand c → new_command c.control c.mic_channel c.value ≡ ok c
unfolding new_command
new_command-IsCommand c h = ground (arith, h.mic_channel, h.at_least, h.at_most)

commands_of-all_bytes : (cs : List Command) → All IsCommand cs → commands_of (all_bytes cs) ≡ ok cs
unfolding all_bytes to_bytes commands_of
commands_of-all_bytes [] h = refl
commands_of-all_bytes (c ∷ cs) h =
    rw (from_opcode-opcode c.control, new_command-IsCommand c h.0, commands_of-all_bytes cs h.1)
      refl

length-all_bytes : (cs : List Command) → length (all_bytes cs) ≡ 3 * length cs
unfolding all_bytes to_bytes
length-all_bytes [] = refl
length-all_bytes (c ∷ cs) = omega (arith, length-all_bytes cs)

last : (xs : List ℕ) (x : ℕ) → get_or (xs ++ x ∷ []) (length xs) 0 ≡ x
last [] x = refl
last (y ∷ xs) x = last xs x

-- A message that the constructors accept is decoded from what it encodes to.
pub decode-encode : (m : Message) → IsMessage m → decode (encode m) ≡ ok m
unfolding decode new_address new_message
decode-encode m h =
    rw (whole, start, end, maker, content, even, commands_of-all_bytes m.commands h.commands)
      accepted
  where
    bytes : List ℕ
    bytes = all_bytes m.commands

    size : length (encode m) ≡ 8 + length bytes
    size = unfold encode in omega (arith, length-append bytes (sysex_end ∷ []))

    whole : ltb (length (encode m)) (7 + 3 + 1) ≡ false
    whole = ground (arith, size, length-all_bytes m.commands, h.some_commands)

    start : (octet (encode m) 0 == sysex_start) ≡ true
    start = unfold encode in refl

    seven : length (encode m) - 1 ≡ suc (suc (suc (suc (suc (suc (suc (length bytes)))))))
    seven = omega (arith, size)

    end : (octet (encode m) (length (encode m) - 1) == sysex_end) ≡ true
    end = unfold encode in rw (seven, last bytes sysex_end) refl

    maker : is_aphex (encode m) ≡ true
    maker = unfold encode in refl

    content : body (encode m) ≡ bytes
    content = unfold encode in rw (seven, take-append bytes (sysex_end ∷ [])) refl

    even : (length bytes % 3 == 0) ≡ true
    even = ground (arith, length-all_bytes m.commands)

    accepted :
        (new_address (octet (encode m) 4) (octet (encode m) 5) (octet (encode m) 6) >>= λ address.
        new_message address m.commands)
        ≡ ok m
    accepted =
        unfold new_address new_message encode in
        ground (
          arith, h.address.midi_channel, h.address.midi_device, h.address.net_number,
          h.some_commands, h.few_commands,
        )

abbrev pub IsDataByte : ℕ → Type 0
IsDataByte b = b ≤ max_data_byte

opcode-IsDataByte : (c : Control) → opcode c ≤ max_data_byte
unfolding opcode
opcode-IsDataByte c = ground arith

value_range-IsDataByte : (c : Control) → (value_range c).1 ≤ max_data_byte
unfolding value_range
value_range-IsDataByte c = ground arith

all_bytes-IsDataByte : (cs : List Command) → All IsCommand cs → All IsDataByte (all_bytes cs)
unfolding all_bytes to_bytes
all_bytes-IsDataByte [] h = tt
all_bytes-IsDataByte (c ∷ cs) h = (
  opcode-IsDataByte c.control,
  (
    h.0.mic_channel,
    (omega (arith, h.0.at_most, value_range-IsDataByte c.control), all_bytes-IsDataByte cs h.1),
  ),
)

-- Between its start and its end a message that the constructors accept has data bytes only, so that
-- nothing in it is taken for the start of another message; its length is 8 octets and 3 for each
-- command, 200 at most.
pub encode-IsDataByte :
    (m : Message)
    → IsMessage m
    → ((inner : List ℕ) × (encode m ≡ sysex_start ∷ (inner ++ sysex_end ∷ []))
        × All IsDataByte inner)
      × (length (encode m) ≡ 8 + 3 * length m.commands)
      × (length (encode m) ≤ 200)
encode-IsDataByte m h = (
  (inner, unfold encode in refl, (omega arith, (omega arith, (omega arith, address)))),
  size,
  omega (arith, size, h.few_commands),
)
  where
    inner : List ℕ
    inner =
        0
        ∷ 0
        ∷ 56
        ∷ m.address.midi_channel
        ∷ m.address.midi_device
        ∷ m.address.net_number
        ∷ all_bytes m.commands

    address : All IsDataByte (
        m.address.midi_channel
        ∷ m.address.midi_device
        ∷ m.address.net_number
        ∷ all_bytes m.commands)
    address = (
      h.address.midi_channel,
      (h.address.midi_device, (h.address.net_number, all_bytes-IsDataByte m.commands h.commands)),
    )

    size : length (encode m) ≡ 8 + 3 * length m.commands
    size =
        unfold encode in
        omega (
          arith,
          length-append (all_bytes m.commands) (sysex_end ∷ []),
          length-all_bytes m.commands,
        )
