-- ===== src/Mic/Shure/Replies.antt =====
-- What the replies that shure.rs reads do to the state.
use mathlib.Core.List.{append_assoc}
use dante_babel_box.Prelude.{
  ◌&&◌, ℕ, ◌<◌, ◌≤◌, ◌^◌, Bool, true, false, Option, none, some, List, [], ◌∷◌, ◌++◌, ◌≡◌, refl, ap,
  ◌∙◌, arith, length, All, leb, ◌==◌, ==_iff, if◌then◌else◌,
}
use dante_babel_box.Prelude.Int.{ℤ}
use dante_babel_box.Prelude.Text.{
  codes, bytes_eq, decimal, read_number, read_number-decimal_whole, decimal-digits, IsDigit,
}
use dante_babel_box.Prelude.Maps.{lookup, lookup-insert}
use dante_babel_box.Prelude.Streams.{joined, drain, drain_found, drain_waiting}
use dante_babel_box.Prelude.Streams
use dante_babel_box.Mic.{AntennaDiversity}
use dante_babel_box.Mic.Shure.{
  Shared, ParsedUpdate, framed, next_message, position, receive_message, receive_chunk,
  parse_message, parse_reply, parse_uint, parse_channel, merge, entry_or_empty, empty_state,
  get_state, push,
}
use dante_babel_box.Mic.Shure.Framing.{parser-IsFramer}
use dante_babel_box.Mic.Shure.Words.{InWord, IsWord, spaced, next_message-framed}

-- Digits that read as a number in the limit are parsed as it.
parse_whole :
    (limit n : ℕ) (text : List ℕ) (b : ℕ) (bs : List ℕ)
    → text ≡ b ∷ bs
    → All IsDigit text
    → read_number 0 text ≡ (n, [])
    → n ≤ limit
    → parse_uint limit text ≡ some n
unfolding parse_uint
parse_whole limit n [] b bs e h r l = absurd (grind arith)
parse_whole limit n (x ∷ xs) b bs e h r l = rw (no_plus, r, in_limit) refl
  where
    no_plus : (x == 43) ≡ false
    no_plus = ground (arith, h.0.0)

    in_limit : leb n limit ≡ true
    in_limit = ground arith

parse_uint-decimal : (limit n : ℕ) → n < 10 ^ 5 → n ≤ limit → parse_uint limit (decimal n) ≡ some n
parse_uint-decimal limit n h l =
    let (digits, (b, bs, e)) = decimal-digits n in
    parse_whole limit n (decimal n) b bs e digits (read_number-decimal_whole n h) l

parse_channel-decimal :
    (channel : ℕ) → 1 ≤ channel → channel ≤ 65535 → parse_channel (decimal channel) ≡ some channel
unfolding parse_channel
parse_channel-decimal channel low high =
    rw (parse_uint-decimal 65535 channel (omega arith) high, nonzero) refl
  where
    nonzero : (channel == 0) ≡ false
    nonzero = ground arith

decimal-IsWord : (n : ℕ) → IsWord (decimal n)
decimal-IsWord n = let (digits, (b, bs, e)) = decimal-digits n in letters (decimal n) b bs e digits
  where
    letter : (b : ℕ) → IsDigit b → InWord b
    letter b h = (ground arith, λ e. omega arith)

    all_letters : (bs : List ℕ) → All IsDigit bs → All InWord bs
    all_letters [] h = tt
    all_letters (b ∷ bs) h = (letter b h.0, all_letters bs h.1)

    letters : (text : List ℕ) (b : ℕ) (bs : List ℕ) → text ≡ b ∷ bs → All IsDigit text → IsWord text
    letters [] b bs e h = absurd (grind arith)
    letters (x ∷ xs) b bs e h = all_letters (x ∷ xs) h

abbrev on_off : Bool → List ℕ
on_off muted = if muted then codes "ON" else codes "OFF"

-- The words of the receiver's reply to a change of its mute.
abbrev mute_words : ℕ → Bool → List (List ℕ)
mute_words channel muted = codes "REP" ∷ decimal channel ∷ codes "AUDIO_MUTE" ∷ on_off muted ∷ []

-- The reply as it is on the wire: `set_mute`'s message with `REP` for `SET`.
abbrev pub mute_reply : ℕ → Bool → List ℕ
mute_reply channel muted = framed (
    codes "REP "
    ++ decimal channel
    ++ codes " AUDIO_MUTE "
    ++ (if muted then codes "ON" else codes "OFF"))

mute_words-IsWord : (channel : ℕ) (muted : Bool) → All IsWord (mute_words channel muted)
mute_words-IsWord channel muted = (
  literal (codes "REP") refl,
  (decimal-IsWord channel, (literal (codes "AUDIO_MUTE") refl, (state muted, tt))),
)
  where
    is_letter : ℕ → Bool
    is_letter b = leb 65 b && leb b 95

    is_literal : List ℕ → Bool
    is_literal [] = true
    is_literal (b ∷ bs) = is_letter b && is_literal bs

    letters : (bs : List ℕ) → is_literal bs ≡ true → All InWord bs
    letters [] h = tt
    letters (b ∷ bs) h = ((ground arith, λ e. ground arith), letters bs (ground arith))

    nonempty : List ℕ → Bool
    nonempty [] = false
    nonempty (b ∷ bs) = is_literal (b ∷ bs)

    literal : (bs : List ℕ) → nonempty bs ≡ true → IsWord bs
    literal [] h = absurd (ground arith)
    literal (b ∷ bs) h = letters (b ∷ bs) h

    state : (muted : Bool) → IsWord (on_off muted)
    state true = literal (codes "ON") refl
    state false = literal (codes "OFF") refl

reply_spaced :
    (channel : ℕ) (muted : Bool)
    → mute_reply channel muted ≡ 60 ∷ (spaced (mute_words channel muted) ++ 32 ∷ []) ++ 62 ∷ []
unfolding framed
reply_spaced channel true = simp append_assoc
reply_spaced channel false = simp append_assoc

parse_mute :
    (channel : ℕ) (muted : Bool)
    → 1 ≤ channel
    → channel ≤ 65535
    → parse_message (mute_words channel muted) ≡ some (ParsedUpdate.mute channel muted)
unfolding parse_message parse_reply bytes_eq
parse_mute channel true low high = rw (parse_channel-decimal channel low high) refl
parse_mute channel false low high = rw (parse_channel-decimal channel low high) refl

-- A reply with nothing before and behind it is handled, and nothing is left.
receive_one :
    (text : List ℕ) (ws : List (List ℕ)) (s : Shared)
    → next_message text ≡ (some ws, [])
    → receive_chunk [] s text ≡ ([], receive_message s ws)
unfolding receive_chunk Streams.read_chunk Streams.handle_all
receive_one text ws s e = rw drained refl
  where
    nothing : drain next_message push length [] ≡ ([], [])
    nothing = drain_waiting parser-IsFramer [] [] (unfold next_message position in refl)

    drained : drain next_message push length text ≡ (ws ∷ [], [])
    drained = drain_found parser-IsFramer text [] ws e ∙ ap (joined (ws ∷ [])) nothing

-- The receiver's reply to a change of the mute is an event of that channel: its entry has the mute
-- that was set, with the rest of it as it was, the other entries stay, and nothing is left in the
-- buffer.
pub receive_chunk-mute_reply :
    (s : Shared) (channel : ℕ) (muted : Bool)
    → 1 ≤ channel
    → channel ≤ 65535
    → ((receive_chunk [] s (mute_reply channel muted)).0 ≡ [])
      × ((receive_chunk [] s (mute_reply channel muted)).1.events
          ≡ s.events
            ++ record {
              channel = channel;
              state = record (entry_or_empty (lookup ◌==◌ channel s.state)) { muted = muted };
            }
              ∷ [])
      × ((other : ℕ)
          → lookup ◌==◌ other (receive_chunk [] s (mute_reply channel muted)).1.state ≡ (
              if channel == other
              then some (record (entry_or_empty (lookup ◌==◌ channel s.state)) { muted = muted })
              else lookup ◌==◌ other s.state))
unfolding receive_message merge
receive_chunk-mute_reply s channel muted low high =
    rw (received, parse_mute channel muted low high)
      (refl, refl, λ other. lookup-insert ◌==◌ ==_iff channel other _ s.state)
  where
    received :
        receive_chunk [] s (mute_reply channel muted)
        ≡ ([], receive_message s (mute_words channel muted))
    received = receive_one (mute_reply channel muted) (mute_words channel muted) s (
        ap next_message (reply_spaced channel muted)
        ∙ next_message-framed [] (mute_words channel muted) [] tt (mute_words-IsWord channel muted))

-- A metering message makes the entry of a channel that has none. Right after it `get_state` answers
-- with this entry, and asks for nothing: not muted, and without battery and frequency, whatever those
-- are on the receiver.
pub get_state_metered :
    (s : Shared) (tokens : List (List ℕ)) (channel : ℕ) (antenna : Option AntennaDiversity)
    (rf_dbm : ℤ)
    → lookup ◌==◌ channel s.state ≡ none
    → parse_message tokens ≡ some (ParsedUpdate.sample channel antenna rf_dbm)
    → get_state channel (receive_message s tokens)
      ≡ (some (record empty_state { antenna = antenna; rf_level_dbm = some rf_dbm }), [])
unfolding receive_message merge get_state
get_state_metered s tokens channel antenna rf_dbm fresh e =
    rw
      (
        e,
        fresh,
        lookup-insert ◌==◌ ==_iff channel channel
            (record empty_state { antenna = antenna; rf_level_dbm = some rf_dbm }) s.state,
        (==_iff channel channel).1 refl,
      )
      refl
