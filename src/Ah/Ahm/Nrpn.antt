-- ===== src/Ah/Ahm/Nrpn.antt =====
-- The stream and the parameter messages of ahm.rs.
use dante_babel_box.Prelude.{
  ℕ, ◌+◌, Bool, Option, none, some, List, [], ◌∷◌, ◌≡◌, refl, ap, ◌∙◌, sym, arith, ◌==◌, ==_iff, ok,
  >>=-ok, ok_inj,
}
use dante_babel_box.Prelude.Int.{ℤ}
use dante_babel_box.Prelude.Maps.{lookup, insert, lookup-insert}
use dante_babel_box.Prelude.Streams.{concat}
use dante_babel_box.Prelude.Streams
use dante_babel_box.Ah.{Update, merge, only_gain, only_phantom}
use dante_babel_box.Ah.Gain.{
  gain_db_to_byte, gain_byte_to_db, bool_to_byte, byte_to_bool-bool_to_byte,
}
use dante_babel_box.Ah.Reports.{Reports, entry, report-Reports}
use dante_babel_box.Ah.Midi
use dante_babel_box.Ah.Midi.{Parser, Plan, push, pending}
use dante_babel_box.Ah.Midi.Laws.{Positive, parser-IsFramer}
use dante_babel_box.Ah.Ahm.{
  Shared, NrpnTracker, plan, receive_message, receive_chunk, receive_loop, set_param, set_gain,
  set_phantom, channel_index, param_gain, param_phantom, apply_update, update_of, feed, selected,
  feed_cc, parse_identify_reply, on_tuple,
}

plan-Positive : (status : ℕ) (r : Unit {0}) → Positive (plan status r)
unfolding plan
plan-Positive status r = ground arith

-- However the stream is cut into pieces, the receive loop does what it does when all arrives at
-- once, and it is left with the same.
pub receive_loop-concat_pieces :
    (p : Parser (Unit {0})) (s : Shared) (chunk : List ℕ) (chunks : List (List ℕ))
    → receive_loop p s (chunk ∷ chunks) ≡ receive_chunk p s (concat (chunk ∷ chunks))
unfolding receive_loop receive_chunk
receive_loop-concat_pieces =
    Streams.read_loop-concat (parser-IsFramer plan plan-Positive) receive_message

-- The parser with nothing in its buffer.
abbrev pub idle : Parser (Unit {0})
idle = record { buf = []; running = tt }

-- The three control changes, one after the other.
receive_three :
    (s : Shared) (ch param value : ℕ)
    → receive_chunk idle s (176 ∷ 99 ∷ ch ∷ 176 ∷ 98 ∷ param ∷ 176 ∷ 6 ∷ value ∷ []) ≡ (
      idle,
      receive_message
          (receive_message (receive_message s (176 ∷ 99 ∷ ch ∷ [])) (176 ∷ 98 ∷ param ∷ []))
          (176 ∷ 6 ∷ value ∷ []),
    )
unfolding receive_chunk Streams.read_chunk Streams.drain Streams.drain_from Streams.handle_all
    Midi.next_message Midi.next_from plan push
receive_three s ch param value = refl

-- What each of them does.
select_channel : NrpnTracker → ℕ → NrpnTracker
select_channel t ch = record t { pending_ch = insert ◌==◌ 0 ch t.pending_ch }

select_param : NrpnTracker → ℕ → NrpnTracker
select_param t param = record t { pending_param = insert ◌==◌ 0 param t.pending_param }

with_tracker : Shared → NrpnTracker → Shared
with_tracker s t = record s { tracker = t }

receive_channel :
    (s : Shared) (ch : ℕ)
    → receive_message s (176 ∷ 99 ∷ ch ∷ []) ≡ with_tracker s (select_channel s.tracker ch)
unfolding receive_message parse_identify_reply feed feed_cc with_tracker select_channel
receive_channel s ch = refl

receive_param :
    (s : Shared) (param : ℕ)
    → receive_message s (176 ∷ 98 ∷ param ∷ []) ≡ with_tracker s (select_param s.tracker param)
unfolding receive_message parse_identify_reply feed feed_cc with_tracker select_param
receive_param s param = refl

receive_value :
    (s : Shared) (value : ℕ)
    → receive_message s (176 ∷ 6 ∷ value ∷ [])
      ≡ on_tuple s (
          selected 0 value
            (lookup ◌==◌ 0 s.tracker.pending_ch)
            (lookup ◌==◌ 0 s.tracker.pending_param))
unfolding receive_message parse_identify_reply feed feed_cc
receive_value s value = refl

own_entry : (v : ℕ) (m : List (ℕ × ℕ)) → lookup ◌==◌ 0 (insert ◌==◌ 0 v m) ≡ some v
own_entry v m = lookup-insert ◌==◌ ==_iff 0 0 v m

same_desk :
    (s : Shared) (t : NrpnTracker) (channel : ℕ) (update : Option Update)
    → (apply_update (with_tracker s t) channel update).desk ≡ (apply_update s channel update).desk
unfolding with_tracker
same_desk s t channel none = refl
same_desk s t channel (some update) = refl

chosen :
    (s : Shared) (ch param value : ℕ)
    → (receive_message
        (with_tracker s (select_param (select_channel s.tracker ch) param))
        (176 ∷ 6 ∷ value ∷ [])).desk
      ≡ (apply_update s (ch + 1) (update_of param value)).desk
chosen s ch param value =
    rw
      (
        receive_value (with_tracker s (select_param (select_channel s.tracker ch) param)) value,
        found_channel,
        found_param,
      )
      (same_desk s (select_param (select_channel s.tracker ch) param) (ch + 1)
        (update_of param value))
  where
    found_channel :
        lookup ◌==◌ 0
          (with_tracker s (select_param (select_channel s.tracker ch) param)).tracker.pending_ch
        ≡ some ch
    found_channel =
        unfold with_tracker select_param select_channel in own_entry ch s.tracker.pending_ch

    found_param :
        lookup ◌==◌ 0
          (with_tracker s (select_param (select_channel s.tracker ch) param)).tracker.pending_param
        ≡ some param
    found_param =
        unfold with_tracker select_param select_channel in own_entry param s.tracker.pending_param

-- After them the tuple that was selected is reported.
receive_selected :
    (s : Shared) (ch param value : ℕ)
    → (receive_chunk idle s (176 ∷ 99 ∷ ch ∷ 176 ∷ 98 ∷ param ∷ 176 ∷ 6 ∷ value ∷ [])).1.desk
      ≡ (apply_update s (ch + 1) (update_of param value)).desk
receive_selected s ch param value =
    ap (λ (after : Parser (Unit {0}) × Shared). after.1.desk) (receive_three s ch param value)
    ∙ rw (receive_channel s ch, receive_param (with_tracker s (select_channel s.tracker ch)) param)
        (unfold with_tracker in chosen s ch param value)

index_of : (channel ch : ℕ) → channel_index channel ≡ ok ch → ch + 1 ≡ channel
unfolding channel_index
index_of channel ch h = ground arith

-- What `set_param` sends, when the processor sends it back to an adapter with nothing in its
-- buffer, is the update of that channel, whatever was selected before.
receive_set_param :
    (s : Shared) (channel param value : ℕ) (msg : List ℕ)
    → set_param channel param value ≡ ok msg
    → (receive_chunk idle s msg).1.desk ≡ (apply_update s channel (update_of param value)).desk
unfolding set_param
receive_set_param s channel param value msg h =
    let (ch, found, sent) = >>=-ok (channel_index channel) _ msg h in
    rw
      (
        ← ok_inj (176 ∷ 99 ∷ ch ∷ 176 ∷ 98 ∷ param ∷ 176 ∷ 6 ∷ value ∷ []) msg (ok msg) (sym sent)
            refl,
        ← index_of channel ch found,
      )
      (receive_selected s ch param value)

-- What `set_gain` sends, when the processor sends it back to an adapter with nothing in its buffer,
-- is one event of that channel, whatever was selected before: the gain is the one the scale has for
-- what was asked, only the gain counts as changed, and the rest of the entry and all other entries
-- stay.
pub receive_chunk-set_gain :
    (s : Shared) (channel : ℕ) (gain : ℤ) (msg : List ℕ)
    → set_gain channel gain ≡ ok msg
    → Reports s.desk
        (receive_chunk idle s msg).1.desk
        channel
        (record (entry s.desk channel) { gain_db = some (gain_byte_to_db (gain_db_to_byte gain)) })
        only_gain
unfolding set_gain merge
receive_chunk-set_gain s channel gain msg h =
    rw (receive_set_param s channel param_gain (gain_db_to_byte gain) msg h)
      (report-Reports s.desk channel (Update.gain (gain_byte_to_db (gain_db_to_byte gain))))

-- What `set_phantom` sends is one event in the same way.
pub receive_chunk-set_phantom :
    (s : Shared) (channel : ℕ) (on : Bool) (msg : List ℕ)
    → set_phantom channel on ≡ ok msg
    → Reports s.desk
        (receive_chunk idle s msg).1.desk
        channel
        (record (entry s.desk channel) { phantom = on })
        only_phantom
unfolding set_phantom merge
receive_chunk-set_phantom s channel on msg h =
    rw
      (
        receive_set_param s channel param_phantom (bool_to_byte on) msg h,
        byte_to_bool-bool_to_byte on,
      )
      (report-Reports s.desk channel (Update.phantom on))
