-- ===== src/Ah/Dlive/Updates.antt =====
-- What the messages of the consoles of dlive.rs do to the state.
use dante_babel_box.Prelude.{
  ℕ, Bool, true, false, Option, none, some, List, [], ◌∷◌, ◌≡◌, refl, ap, sym, arith, take, Result,
  ok, err, >>=-ok, ok_inj,
}
use dante_babel_box.Prelude.Int.{ℤ}
use dante_babel_box.Prelude.Text.{bytes_eq}
use dante_babel_box.Ah.{
  AdapterError, PreampState, Update, or_later, known_state, poll, merge, gain_known, only_gain,
  only_phantom,
}
use dante_babel_box.Ah.Reports.{Reports, entry, report-Reports}
use dante_babel_box.Ah.Gain.{gain_db_to_byte, gain_byte_to_db, bool_to_byte, byte_to_bool}
use dante_babel_box.Ah.Dlive.{
  Shared, socket_number, channel_from_socket, set_gain, sysex, op_48v_status, update_of, is_sysex,
  ask_socket, polled, cached_or, for_channel, parse_identify_reply, apply_update, handle_message,
  receive_message, get_state,
}
use dante_babel_box.Ah.Dlive.Sockets.{socket_number_iff}

-- A Pitchbend message, and a phantom power status, on the entry of their socket's channel.
receive_pitchbend :
    (s : Shared) (mp byte : ℕ)
    → receive_message s (224 ∷ mp ∷ byte ∷ [])
      ≡ apply_update s (for_channel (Update.gain (gain_byte_to_db byte)) (channel_from_socket mp))
unfolding receive_message parse_identify_reply is_sysex handle_message update_of
receive_pitchbend s mp byte = refl

receive_phantom :
    (s : Shared) (mp : ℕ) (on : Bool)
    → receive_message s (sysex op_48v_status mp (some (bool_to_byte on)))
      ≡ apply_update s (for_channel (Update.phantom on) (channel_from_socket mp))
unfolding receive_message parse_identify_reply is_sysex handle_message update_of sysex bytes_eq
    bool_to_byte byte_to_bool
receive_phantom s mp true = refl
receive_phantom s mp false = refl

channel_of :
    (channel mp : ℕ) → socket_number channel ≡ ok mp → channel_from_socket mp ≡ some channel
channel_of channel mp h = (socket_number_iff channel mp).0.0 h

-- The message that sets the gain of a channel, when the console sends it back, is an event of that
-- channel: the gain is the one the scale has for what was asked, only the gain counts as changed,
-- and the rest of the entry and all other entries stay.
pub receive_message-set_gain :
    (s : Shared) (channel : ℕ) (gain : ℤ) (msg : List ℕ)
    → set_gain channel gain ≡ ok msg
    → Reports s.desk
        (receive_message s msg).desk
        channel
        (record (entry s.desk channel) { gain_db = some (gain_byte_to_db (gain_db_to_byte gain)) })
        only_gain
unfolding set_gain merge
receive_message-set_gain s channel gain msg h =
    let (mp, found, sent) = >>=-ok (socket_number channel) _ msg h in
    rw
      (
        ← ok_inj (224 ∷ mp ∷ gain_db_to_byte gain ∷ []) msg (ok msg) (sym sent) refl,
        receive_pitchbend s mp (gain_db_to_byte gain),
        channel_of channel mp found,
      )
      (report-Reports s.desk channel (Update.gain (gain_byte_to_db (gain_db_to_byte gain))))

-- A phantom power status for the socket of a channel is an event of that channel: only phantom
-- power counts as changed, and the rest of the entry and all other entries stay.
pub receive_message-phantom_status :
    (s : Shared) (channel mp : ℕ) (on : Bool)
    → socket_number channel ≡ ok mp
    → Reports s.desk
        (receive_message s (sysex op_48v_status mp (some (bool_to_byte on)))).desk
        channel
        (record (entry s.desk channel) { phantom = on })
        only_phantom
unfolding merge
receive_message-phantom_status s channel mp on found =
    rw (receive_phantom s mp on, channel_of channel mp found)
      (report-Reports s.desk channel (Update.phantom on))

known_state_known :
    (o : Option PreampState) (s : PreampState) → known_state o ≡ some s → gain_known s ≡ true
known_state_known none s h = grind arith
known_state_known (some t) s h = ground arith

or_later_known :
    (a b : Option PreampState) (s : PreampState)
    → (a ≡ some s → gain_known s ≡ true)
    → (b ≡ some s → gain_known s ≡ true)
    → or_later a b ≡ some s
    → gain_known s ≡ true
or_later_known none b s f g h = g h
or_later_known (some t) b s f g h = f h

poll_known :
    (seen : List (Option PreampState)) (s : PreampState) → poll seen ≡ some s → gain_known s ≡ true
unfolding poll
poll_known [] s h = grind arith
poll_known (o ∷ later) s h =
    or_later_known (known_state o) (poll later) s (known_state_known o s) (poll_known later s) h

polled_known :
    (o : Option PreampState) (s : PreampState)
    → (o ≡ some s → gain_known s ≡ true)
    → polled o ≡ ok s
    → gain_known s ≡ true
polled_known none s f h = grind arith
polled_known (some t) s f h = f (ap some (ok_inj t s (ok t) refl h))

asked_known :
    (socket : Result AdapterError ℕ) (later : List (Option PreampState)) (s : PreampState)
    → (ask_socket socket later).1 ≡ ok s
    → gain_known s ≡ true
asked_known (err e) later s h = grind arith
asked_known (ok mp) later s h =
    polled_known (poll (take 20 later)) s (poll_known (take 20 later) s) h

cached_known :
    (o : Option PreampState) (asked : List (List ℕ) × Result AdapterError PreampState)
    (s : PreampState)
    → (o ≡ some s → gain_known s ≡ true)
    → (asked.1 ≡ ok s → gain_known s ≡ true)
    → (cached_or o asked).1 ≡ ok s
    → gain_known s ≡ true
cached_known none asked s f g h = g h
cached_known (some t) asked s f g h = f (ap some (ok_inj t s (ok t) refl h))

-- What `get_state` returns has a gain that was read, never the placeholder of an entry that another
-- field's message made; once that is the channel's entry, it is returned without asking the console.
pub get_state_known :
    (channel : ℕ) (now : Option PreampState) (later : List (Option PreampState)) (s : PreampState)
    → (get_state channel now later).1 ≡ ok s
    → (gain_known s ≡ true) × (get_state channel (some s) [] ≡ ([], ok s))
unfolding get_state
get_state_known channel now later s h = (known, rw known refl)
  where
    known : gain_known s ≡ true
    known =
        cached_known (known_state now) (ask_socket (socket_number channel) later) s
          (known_state_known now s) (asked_known (socket_number channel) later s) h
