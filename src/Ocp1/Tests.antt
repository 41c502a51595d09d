-- ===== src/Ocp1/Tests.antt =====
-- The framing of crates/ocp1 at concrete inputs.
use dante_babel_box.Prelude.{ℕ, true, some, List, [], ◌∷◌, ◌++◌, ◌≡◌, refl, arith, ok}
use dante_babel_box.Prelude.Bytes.{to_be, of_be}
use dante_babel_box.Ocp1.Value.{remaining, new, read_uint, write_bytes, write_raw, write_uint}
use dante_babel_box.Ocp1.Pdu.{
  PduType, MemberId, Command, Response, Message, encode_command, encode_keepalive, write_header,
  pdu_len, decode_pdu,
}
use dante_babel_box.Ocp1.Pdu.Header.{frame}
use dante_babel_box.Ocp1.Pdu.RoundTrip.{decode_pdu-encode_command}
use dante_babel_box.Ocp1.Pdu.Notifications.{
  Layout, IsId, id_octets, layout_octets, layout_body, decode_pdu-layout,
}

-- The keepalive frame of five seconds.
abbrev five_seconds : List ℕ
five_seconds = 59 ∷ 0 ∷ 1 ∷ 0 ∷ 0 ∷ 0 ∷ 11 ∷ 4 ∷ 0 ∷ 1 ∷ 0 ∷ 5 ∷ []

encode_five : encode_keepalive 5 ≡ five_seconds
unfolding encode_keepalive write_header write_uint to_be
encode_five = refl

found_five : pdu_len five_seconds ≡ ok (some 12)
unfolding pdu_len of_be
found_five = refl

decode_five : decode_pdu five_seconds ≡ ok (Message.keep_alive_message 5 ∷ [])
unfolding decode_pdu of_be remaining new read_uint
decode_five = refl

-- A heartbeat of 65536000 ms decodes as no seconds at all.
decode_wrapped :
    decode_pdu (59 ∷ 0 ∷ 1 ∷ 0 ∷ 0 ∷ 0 ∷ 13 ∷ 4 ∷ 0 ∷ 1 ∷ 3 ∷ 232 ∷ 0 ∷ 0 ∷ [])
    ≡ ok (Message.keep_alive_message 0 ∷ [])
unfolding decode_pdu of_be remaining new read_uint
decode_wrapped = refl

abbrev gain : MemberId
gain = record { def_level = 4; index = 1 }

abbrev reply : Response
reply = record { handle = 7; status = 0; param_count = 1; params = 18 ∷ 52 ∷ [] }

abbrev get_gain : Command
get_gain = record { handle = 1; target = 4; method = gain; param_count = 1; params = 170 ∷ [] }

decode_pdu-encode_command_example :
    decode_pdu (encode_command get_gain true ++ five_seconds)
    ≡ ok (Message.command_message get_gain ∷ [])
decode_pdu-encode_command_example = decode_pdu-encode_command get_gain true five_seconds (record {
  handle = omega arith;
  target = omega arith;
  def_level = omega arith;
  index = omega arith;
  param_count = omega arith;
  size = omega arith;
})

abbrev gain_changed : Layout
gain_changed = record {
  target = 4;
  method = record { def_level = 3; index = 1 };
  param_count = 3;
  notification_id = 222 ∷ 173 ∷ [];
  event = record { def_level = 1; index = 1 };
  changed = record { emitter = 16810502; property = gain; value = 192 ∷ 192 ∷ 0 ∷ 0 ∷ 1 ∷ [] };
}

decode_pdu-layout_example :
    decode_pdu (frame PduType.notification (layout_octets gain_changed) ++ five_seconds)
    ≡ ok (Message.notification_message gain_changed.changed ∷ [])
unfolding IsId layout_body id_octets to_be write_bytes write_raw write_uint
decode_pdu-layout_example = decode_pdu-layout gain_changed five_seconds (record {
  target = omega arith;
  method = (omega arith, omega arith);
  param_count = omega arith;
  notification_id = omega arith;
  emitter = omega arith;
  event = (omega arith, omega arith);
  property = (omega arith, omega arith);
  size = omega arith;
})
