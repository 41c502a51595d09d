-- ===== src/Ah.antt =====
-- crates/preamp-adapter-ah: the adapters of the Allen & Heath lines, and the preamp state of
-- crates/core/src/types.rs that they keep. A gain is a number of 127000ths of a dB, the unit in
-- which the 128 steps of the desks' scale from 5 to 60 dB are whole.
pub mod Midi
pub mod Gain
pub mod Reports
pub mod Dlive
pub mod Ahm
use dante_babel_box.Prelude.{
  ℕ, String, Bool, true, false, Option, none, some, List, [], ◌∷◌, ◌++◌, ◌==◌, if◌then◌else◌,
}
use dante_babel_box.Prelude.Maps.{lookup, insert}

pub data AdapterError : Type 0 where
  connection protocol unsupported : String → AdapterError
  unsupported_channel : ℕ → AdapterError

-- `gain_db` is NaN until it is read.
pub record PreampState : Type 0 where
  pub gain_db : Option ℕ
  pub phantom : Bool
  pub pad : Option Bool

-- `PreampState::UNREAD`
abbrev pub unread : PreampState
unread = record { gain_db = none; phantom = false; pad = none }

-- `PreampState::gain_known`
abbrev pub gain_known : PreampState → Bool
gain_known s = elim s.gain_db [ none ↦ false | some gain ↦ true ]

pub record ChangedFields : Type 0 where
  pub gain : Bool
  pub phantom : Bool
  pub pad : Bool

-- `ChangedFields::GAIN`, `PHANTOM` and `PAD`
abbrev pub only_gain : ChangedFields
only_gain = record { gain = true; phantom = false; pad = false }

abbrev pub only_phantom : ChangedFields
only_phantom = record { gain = false; phantom = true; pad = false }

abbrev pub only_pad : ChangedFields
only_pad = record { gain = false; phantom = false; pad = true }

-- An event of the adapter's device.
pub record PreampEvent : Type 0 where
  pub channel : ℕ
  pub state : PreampState
  pub changed : ChangedFields

-- `state.entry(channel).or_insert(PreampState::UNREAD)`, as a reading.
abbrev pub entry_or_unread : Option PreampState → PreampState
entry_or_unread none = unread
entry_or_unread (some entry) = entry

-- `get(..).filter(|s| s.gain_known())`
abbrev pub known_state : Option PreampState → Option PreampState
known_state none = none
known_state (some s) = if gain_known s then some s else none

abbrev pub or_later : Option PreampState → Option PreampState → Option PreampState
or_later (some s) later = some s
or_later none later = later

-- The polls of `get_state`: each sees the entry as it is then.
unfoldable pub poll : List (Option PreampState) → Option PreampState
poll [] = none
poll (seen ∷ later) = or_later (known_state seen) (poll later)

-- What one message says of a channel, and its merge into the channel's entry.
pub data Update : Type 0 where
  gain : ℕ → Update
  phantom : Bool → Update
  pad : Bool → Update

unfoldable pub merge : Update → PreampState → PreampState × ChangedFields
merge (Update.gain v) entry = (record entry { gain_db = some v }, only_gain)
merge (Update.phantom v) entry = (record entry { phantom = v }, only_phantom)
merge (Update.pad v) entry = (record entry { pad = some v }, only_pad)

-- The entries of the channels and the events that were sent.
pub record Desk : Type 0 where
  pub state : List (ℕ × PreampState)
  pub events : List PreampEvent

-- The end of both receive loops: the update goes into the channel's entry, and an event says so.
unfoldable pub report : ℕ → Update → Desk → Desk
unfolding merge
report channel update d =
    let merged = merge update (entry_or_unread (lookup ◌==◌ channel d.state)) in
    record {
      state = insert ◌==◌ channel merged.0 d.state;
      events = d.events ++ record { channel = channel; state = merged.0; changed = merged.1 } ∷ [];
    }
