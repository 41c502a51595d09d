-- ===== src/Ocp1.antt =====
-- crates/ocp1: the controller side of AES70 over TCP. `Error` of lib.rs; `Value` is the marshalling
-- of value.rs, `Pdu` the framing of pdu.rs.
pub mod Value
pub mod Pdu
pub mod Client
mod Tests
use dante_babel_box.Prelude.{ℕ, String}

pub data Error : Type 0 where
  io : String → Error
  disconnected timeout truncated : Error
  bad_sync bad_version bad_length unknown_pdu_type : ℕ → Error
  status : ℕ → String → Error
