-- ===== src/Ocp1/Client/Heartbeat.antt =====
-- The heartbeat task of client.rs.
use dante_babel_box.Prelude.{ℕ, ◌≤◌, List, [], ◌∷◌, ◌++◌, ◌≡◌, arith, ok}
use dante_babel_box.Ocp1.Pdu.{Message, decode_pdu}
use dante_babel_box.Ocp1.Pdu.RoundTrip.{decode_pdu-encode_keepalive}
use dante_babel_box.Ocp1.Client.{heartbeat, heartbeat_secs}

heartbeat_secs_range : (ms : ℕ) → (1 ≤ heartbeat_secs ms) × (heartbeat_secs ms ≤ 65535)
unfolding heartbeat_secs
heartbeat_secs_range ms = ground arith

-- A heartbeat is read back, whatever its interval is and whatever follows it, and names between 1
-- and 65535 seconds.
pub decode_pdu-heartbeat :
    (ms : ℕ) (more : List ℕ)
    → (decode_pdu (heartbeat ms ++ more) ≡ ok (Message.keep_alive_message (heartbeat_secs ms) ∷ []))
      × (1 ≤ heartbeat_secs ms)
      × (heartbeat_secs ms ≤ 65535)
unfolding heartbeat
decode_pdu-heartbeat ms more = (
  decode_pdu-encode_keepalive (heartbeat_secs ms) more (omega (arith, heartbeat_secs_range ms)),
  (heartbeat_secs_range ms).0,
  (heartbeat_secs_range ms).1,
)
