-- ===== src/Ah/Dlive/Sockets.antt =====
-- The channels and sockets of dlive.rs.
use dante_babel_box.Prelude.{ℕ, ◌<◌, some, ◌≡◌, ◌↔◌, arith, ok}
use dante_babel_box.Ah.Dlive.{socket_number, channel_from_socket}

-- A channel has a socket exactly when the socket's channel is that channel: the two tables are each
-- other's inverse, and the socket is a MIDI data octet.
pub socket_number_iff :
    (channel mp : ℕ)
    → ((socket_number channel ≡ ok mp) ↔ (channel_from_socket mp ≡ some channel))
      × (socket_number channel ≡ ok mp → mp < 128)
unfolding socket_number channel_from_socket
socket_number_iff channel mp = ground arith
