-- ===== src/Ah/Ahm/Tests.antt =====
-- ahm.rs at concrete inputs.
use dante_babel_box.Prelude.{ℕ, false, some, List, [], ◌∷◌, ◌≡◌, refl, ok}
use dante_babel_box.Prelude.Int.{pos}
use dante_babel_box.Prelude.Maps.{lookup}
use dante_babel_box.Ah.{unread, only_gain}
use dante_babel_box.Ah.Gain.{gain_db_to_byte, gain_byte_to_db}
use dante_babel_box.Ah.Reports.{Reports}
use dante_babel_box.Ah.Ahm.{Shared, set_gain, set_param, channel_index, receive_chunk}
use dante_babel_box.Ah.Ahm.Nrpn.{idle, receive_chunk-set_gain}

abbrev fresh : Shared
fresh = record {
  tracker = record { pending_ch = []; pending_param = [] };
  desk = record { state = []; events = [] };
  pending_identify = false;
  identified = 0;
}

abbrev gain_message : List ℕ
gain_message = 176 ∷ 99 ∷ 4 ∷ 176 ∷ 98 ∷ 25 ∷ 176 ∷ 6 ∷ 12 ∷ []

set_gain_5 : set_gain 5 (pos 1270000) ≡ ok gain_message
unfolding set_gain set_param channel_index gain_db_to_byte
set_gain_5 = refl

receive_chunk-set_gain_example :
    Reports fresh.desk
      (receive_chunk idle fresh gain_message).1.desk
      5
      (record unread { gain_db = some (gain_byte_to_db (gain_db_to_byte (pos 1270000))) })
      only_gain
unfolding lookup
receive_chunk-set_gain_example =
    receive_chunk-set_gain fresh 5 (pos 1270000) gain_message set_gain_5
