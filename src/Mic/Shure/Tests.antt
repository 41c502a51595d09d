-- ===== src/Mic/Shure/Tests.antt =====
-- shure.rs at concrete inputs.
use dante_babel_box.Prelude.{
  ℕ, true, false, none, some, List, [], ◌∷◌, ◌≡◌, refl, arith, ◌==◌, if◌then◌else◌,
}
use dante_babel_box.Prelude.Int.{pos, negsuc, ◌-ℤ◌}
use dante_babel_box.Prelude.Text.{codes, bytes_eq, read_number, is_digit, decimal}
use dante_babel_box.Prelude.Maps.{lookup}
use dante_babel_box.Mic.{AntennaDiversity}
use dante_babel_box.Mic.Shure.{
  Shared, ParsedUpdate, receive_chunk, receive_message, parse_message, parse_sample, rf_level,
  parse_i16, parse_channel, parse_uint, get_state, empty_state, set_mute, framed,
}
use dante_babel_box.Mic.Shure.Replies.{mute_reply, receive_chunk-mute_reply, get_state_metered}

abbrev fresh : Shared
fresh = record { state = []; events = [] }

mute_three : set_mute 3 true ≡ codes "< SET 3 AUDIO_MUTE ON >"
unfolding set_mute framed decimal
mute_three = refl

reply_three : mute_reply 3 false ≡ codes "< REP 3 AUDIO_MUTE OFF >"
unfolding framed decimal
reply_three = refl

receive_chunk-mute_reply_example :
    ((receive_chunk [] fresh (mute_reply 3 true)).0 ≡ [])
    × ((receive_chunk [] fresh (mute_reply 3 true)).1.events
        ≡ record { channel = 3; state = record empty_state { muted = true } } ∷ [])
    × ((other : ℕ)
        → lookup ◌==◌ other (receive_chunk [] fresh (mute_reply 3 true)).1.state
          ≡ (if 3 == other then some (record empty_state { muted = true }) else none))
unfolding lookup
receive_chunk-mute_reply_example = receive_chunk-mute_reply fresh 3 true (omega arith) (omega arith)

abbrev metering : List (List ℕ)
metering = codes "SAMPLE" ∷ codes "1" ∷ codes "ALL" ∷ codes "AX" ∷ codes "102" ∷ codes "020" ∷ []

metering_parsed :
    parse_message metering ≡ some (ParsedUpdate.sample 1 (some AntennaDiversity.a) (negsuc 25))
unfolding parse_message parse_sample rf_level parse_i16 parse_channel parse_uint bytes_eq
    read_number is_digit ◌-ℤ◌
metering_parsed = refl

get_state_metered_example : get_state 1 (receive_message fresh metering) ≡ (
  some (record empty_state { antenna = some AntennaDiversity.a; rf_level_dbm = some (negsuc 25) }),
  [],
)
get_state_metered_example =
    get_state_metered fresh metering 1 (some AntennaDiversity.a) (negsuc 25) (unfold lookup in refl)
      metering_parsed

-- A level under -32640 wraps to a positive one.
level_wraps : rf_level (negsuc 32640) ≡ pos 32767
unfolding rf_level
level_wraps = refl
