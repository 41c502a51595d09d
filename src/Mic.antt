-- ===== src/Mic.antt =====
-- crates/mic-core/src/types.rs: what the adapters of wireless microphones report.
pub mod Shure
use dante_babel_box.Prelude.{ℕ, Bool, Option}
use dante_babel_box.Prelude.Int.{ℤ}

pub data AntennaDiversity : Type 0 where
  a b inactive : AntennaDiversity

-- A frequency is a number of kHz, a level a whole number of its unit.
pub record MicState : Type 0 where
  pub battery_percent : Option ℕ
  pub battery_bars : Option ℕ
  pub battery_minutes_remaining : Option ℕ
  pub rf_level_dbm : Option ℤ
  pub rf_quality_percent : Option ℕ
  pub audio_level_dbfs : Option ℤ
  pub muted : Bool
  pub frequency_mhz : Option ℕ
  pub antenna : Option AntennaDiversity

pub record MicEvent : Type 0 where
  pub channel : ℕ
  pub state : MicState
