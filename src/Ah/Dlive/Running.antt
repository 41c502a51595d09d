-- ===== src/Ah/Dlive/Running.antt =====
-- The stream parser of dlive.rs: pieces, and messages whose status octet is left out.
use mathlib.Core.List.{append_assoc}
use dante_babel_box.Prelude.{
  ℕ, suc, ◌≤◌, ◌<◌, ◌≢◌, Bool, true, false, ◌&&◌, Option, none, some, List, [], ◌∷◌, ◌++◌, ◌≡◌,
  refl, ap, ◌∙◌, arith, tests, length, length-append, take-append, drop-append, All, ltb, ◌==◌,
  if◌then◌else◌, inl, inr, Bool-cases, ==_iff,
}
use dante_babel_box.Prelude.Streams.{IsFramer, concat, drain, drain_found, drain_waiting}
use dante_babel_box.Prelude.Streams
use dante_babel_box.Ah.Midi.{Parser, Plan, act, cut, taken, end_of_sysex, push, pending, next_from}
use dante_babel_box.Ah.Midi
use dante_babel_box.Ah.Midi.Laws.{Positive, parser-IsFramer}
use dante_babel_box.Ah.Dlive.{
  Shared, plan, channel_msg_data_len, next_message, receive_loop, receive_chunk, receive_message,
}

plan-Positive : (first : ℕ) (running : Option ℕ) → Positive (plan first running)
unfolding plan channel_msg_data_len
plan-Positive first none = ground arith
plan-Positive first (some status) = ground arith

-- However the stream is cut into pieces, the receive loop does what it does when all arrives at
-- once, and it is left with the same.
pub receive_loop-concat :
    (p : Parser (Option ℕ)) (s : Shared) (chunk : List ℕ) (chunks : List (List ℕ))
    → receive_loop p s (chunk ∷ chunks) ≡ receive_chunk p s (concat (chunk ∷ chunks))
unfolding receive_loop receive_chunk
receive_loop-concat = Streams.read_loop-concat (parser-IsFramer plan plan-Positive) receive_message

-- A message as a sender has it in mind.
pub data Sent : Type 0 where
  voice : ℕ → List ℕ → Sent
  sysex : List ℕ → Sent

-- A status octet with its number of data octets, or a system exclusive body.
abbrev pub IsSent : Sent → Type 0
IsSent (Sent.voice status data_octets) =
    (128 ≤ status)
    × (channel_msg_data_len status ≡ some (length data_octets))
    × All (λ b. b < 128) data_octets
IsSent (Sent.sysex body) = All (λ b. b ≢ 247) body

abbrev pub in_full : Sent → List ℕ
in_full (Sent.voice status data_octets) = status ∷ data_octets
in_full (Sent.sysex body) = 240 ∷ body ++ 247 ∷ []

abbrev pub remembered : Sent → Option ℕ
remembered (Sent.voice status data_octets) = some status
remembered (Sent.sysex body) = none

abbrev pub is_running : Option ℕ → ℕ → Bool
is_running none status = false
is_running (some r) status = r == status

-- The octets of a message: a sender that likes to may leave out a status octet that is running.
abbrev pub on_wire : Option ℕ → Bool → Sent → List ℕ
on_wire running leave_out (Sent.voice status data_octets) =
    if leave_out && is_running running status then data_octets else status ∷ data_octets
on_wire running leave_out (Sent.sysex body) = 240 ∷ body ++ 247 ∷ []

abbrev pub wire : Option ℕ → List (Bool × Sent) → List ℕ
wire running [] = []
wire running ((leave_out, m) ∷ ms) = on_wire running leave_out m ++ wire (remembered m) ms

abbrev pub left_running : Option ℕ → List (Bool × Sent) → Option ℕ
left_running running [] = running
left_running running ((leave_out, m) ∷ ms) = left_running (remembered m) ms

abbrev pub messages : List (Bool × Sent) → List (List ℕ)
messages [] = []
messages ((leave_out, m) ∷ ms) = in_full m ∷ messages ms

plan_status :
    (status n : ℕ) (running : Option ℕ)
    → 128 ≤ status
    → channel_msg_data_len status ≡ some n
    → plan status running ≡ Plan.message [] (suc n) (some status)
unfolding plan channel_msg_data_len
plan_status status n running h e = ground arith

plan_running :
    (first status n : ℕ)
    → first < 128
    → channel_msg_data_len status ≡ some n
    → plan first (some status) ≡ Plan.message (status ∷ []) n (some status)
unfolding plan
plan_running first status n h e = rw e (ground arith)

data_octets_one : (status n : ℕ) → channel_msg_data_len status ≡ some n → 1 ≤ n
unfolding channel_msg_data_len
data_octets_one status n e = ground arith

-- A message of `xs`, and what follows it.
cut_exact :
    (prefix xs more : List ℕ) (running next : Option ℕ)
    → cut prefix (xs ++ more) running next (length xs)
      ≡ (some (prefix ++ xs), record { buf = more; running = next })
cut_exact prefix xs more running next = rw (fits, take-append xs more, drop-append xs more) refl
  where
    fits : ltb (length (xs ++ more)) (length xs) ≡ false
    fits = omega (tests, length-append xs more)

end_of_sysex_body :
    (body more : List ℕ)
    → All (λ b. b ≢ 247) body
    → end_of_sysex (body ++ 247 ∷ more) ≡ some (suc (length body))
unfolding end_of_sysex
end_of_sysex_body [] more h = refl
end_of_sysex_body (b ∷ bs) more h = ground (arith, h.0, end_of_sysex_body bs more h.1)

-- The parser takes a status octet with its data, data under a running status, and a system
-- exclusive message, each in front of anything.
next_status :
    (status : ℕ) (xs more : List ℕ) (running : Option ℕ)
    → 128 ≤ status
    → channel_msg_data_len status ≡ some (length xs)
    → next_from plan (status ∷ xs ++ more) running
      ≡ (some (status ∷ xs), record { buf = more; running = some status })
unfolding next_from
next_status status xs more running h e =
    rw (plan_status status (length xs) running h e)
      (cut_exact [] (status ∷ xs) more running (some status))

next_running :
    (status : ℕ) (xs more : List ℕ)
    → channel_msg_data_len status ≡ some (length xs)
    → All (λ b. b < 128) xs
    → next_from plan (xs ++ more) (some status)
      ≡ (some (status ∷ xs), record { buf = more; running = some status })
unfolding next_from
next_running status [] more e h = absurd (omega (arith, data_octets_one status 0 e))
next_running status (x ∷ xs) more e h =
    rw (plan_running x status (length (x ∷ xs)) h.0 e)
      (cut_exact (status ∷ []) (x ∷ xs) more (some status) (some status))

plan-sysex : (running : Option ℕ) → plan 240 running ≡ Plan.sysex none
unfolding plan
plan-sysex running = refl

taken_exact :
    (xs more : List ℕ) (next : Option ℕ)
    → taken [] (xs ++ more) next (length xs) ≡ (some xs, record { buf = more; running = next })
taken_exact xs more next = rw (take-append xs more, drop-append xs more) refl

end_of_whole :
    (body more : List ℕ)
    → All (λ b. b ≢ 247) body
    → end_of_sysex (240 ∷ (body ++ 247 ∷ []) ++ more) ≡ some (length (240 ∷ body ++ 247 ∷ []))
unfolding end_of_sysex
end_of_whole body more h =
    rw (append_assoc body (247 ∷ []) more, end_of_sysex_body body more h)
      (ap (λ n. some (suc n)) (omega (arith, length-append body (247 ∷ []))))

next_sysex :
    (body more : List ℕ) (running : Option ℕ)
    → All (λ b. b ≢ 247) body
    → next_from plan ((240 ∷ body ++ 247 ∷ []) ++ more) running
      ≡ (some (240 ∷ body ++ 247 ∷ []), record { buf = more; running = none })
unfolding next_from
next_sysex body more running h =
    rw (plan-sysex running, end_of_whole body more h)
      (taken_exact (240 ∷ body ++ 247 ∷ []) more none)

next_on_wire :
    (running : Option ℕ) (leave_out : Bool) (m : Sent) (more : List ℕ)
    → IsSent m
    → next_from plan (on_wire running leave_out m ++ more) running
      ≡ (some (in_full m), record { buf = more; running = remembered m })
next_on_wire running leave_out (Sent.sysex body) more h = next_sysex body more running h
next_on_wire running false (Sent.voice status xs) more h =
    next_status status xs more running h.0 h.1
next_on_wire none true (Sent.voice status xs) more h = next_status status xs more none h.0 h.1
next_on_wire (some r) true (Sent.voice status xs) more h = elim (Bool-cases (r == status)) [
  | inl same ↦ rw (same, eq_of same) (next_running status xs more h.1 h.2)
  | inr fresh ↦ rw fresh (next_status status xs more (some r) h.0 h.1)
]
  where
    eq_of : (r == status) ≡ true → r ≡ status
    eq_of e = (==_iff r status).0 e

-- Messages whose status octets are left out wherever the sender likes to, where the status is
-- running, come out in full and in order, and nothing is left; a parser that starts with the
-- sender's running status ends with it.
pub drain-wire :
    (running : Option ℕ) (ms : List (Bool × Sent))
    → All (λ (m : Bool × Sent). IsSent m.1) ms
    → drain next_message push pending (record { buf = wire running ms; running = running })
      ≡ (messages ms, record { buf = []; running = left_running running ms })
drain-wire running [] h =
    drain_waiting (parser-IsFramer plan plan-Positive) (record { buf = []; running = running })
      (record { buf = []; running = running }) (unfold Midi.next_message next_from in refl)
drain-wire running ((leave_out, m) ∷ ms) h =
    drain_found (parser-IsFramer plan plan-Positive)
      (record { buf = wire running ((leave_out, m) ∷ ms); running = running })
      (record { buf = wire (remembered m) ms; running = remembered m }) (in_full m)
      (unfold Midi.next_message in next_on_wire running leave_out m (wire (remembered m) ms) h.0)
    ∙ rw (drain-wire (remembered m) ms h.1) refl
