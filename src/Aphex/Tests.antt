-- ===== src/Aphex/Tests.antt =====
-- The Aphex codec at concrete inputs.
use dante_babel_box.Prelude.{[], ◌∷◌, ◌≡◌, refl, arith, ok, err}
use dante_babel_box.Aphex.{Control, Error, value_range, Message, encode, decode, input_gain_db}
use dante_babel_box.Aphex.RoundTrip.{IsMessage, decode-encode}
use dante_babel_box.Aphex.Canonical.{decode_canonical}

abbrev forty : Message
forty = record {
  address = record { midi_channel = 0; midi_device = 0; net_number = 1 };
  commands = record { control = Control.input_gain; mic_channel = 1; value = 40 } ∷ [];
}

encode-forty : encode forty ≡ 240 ∷ 0 ∷ 0 ∷ 56 ∷ 0 ∷ 0 ∷ 1 ∷ 0 ∷ 1 ∷ 40 ∷ 247 ∷ []
unfolding encode
encode-forty = refl

input_gain_db_refused :
    input_gain_db 1 66 ≡ err (Error.value_out_of_range Control.input_gain 66 26 65)
unfolding input_gain_db
input_gain_db_refused = refl

forty-IsMessage : IsMessage forty
unfolding value_range
forty-IsMessage = record {
  address = record {
    midi_channel = omega arith;
    midi_device = omega arith;
    net_number = omega arith;
  };
  commands =
      (record { mic_channel = omega arith; at_least = omega arith; at_most = omega arith }, tt);
  some_commands = omega arith;
  few_commands = omega arith;
}

decode-encode_example : decode (encode forty) ≡ ok forty
decode-encode_example = decode-encode forty forty-IsMessage

decode_canonical_example : IsMessage forty × (encode forty ≡ encode forty)
decode_canonical_example =
    decode_canonical (encode forty) forty (decode-encode forty forty-IsMessage)
