-- ===== src/Mic/Shure/Framing.antt =====
-- The stream parser of shure.rs: how the stream is cut into pieces does not matter.
use mathlib.Core.List.{append_assoc}
use dante_babel_box.Prelude.{
  ℕ, ◌+◌, ◌-◌, ◌<◌, Option, none, some, List, [], ◌∷◌, ◌++◌, ◌≡◌, refl, ap, ◌∙◌, sym, arith, length,
  take, drop, length-drop, take-append_le, drop-append_le, ◌⊎◌, inl, inr,
}
use dante_babel_box.Prelude.Streams.{IsFramer, concat}
use dante_babel_box.Prelude.Streams
use dante_babel_box.Mic.Shure.{
  Shared, position, split_whitespace, next_message, push, receive_message, receive_chunk,
  receive_loop,
}

-- A character that is found lies in the text, and is found at the same place in a longer one.
pub position-append :
    (c : ℕ) (bs more : List ℕ) (i : ℕ)
    → position c bs ≡ some i
    → (i < length bs) × (position c (bs ++ more) ≡ some i)
unfolding position
position-append c [] more i h = ground arith
position-append c (b ∷ bs) more i h = ground (arith, position-append c bs more (i - 1))

-- The message in front of a text, by where its ends are.
pub next_found :
    (buf : List ℕ) (start i : ℕ)
    → position 60 buf ≡ some start
    → position 62 (drop start buf) ≡ some i
    → next_message buf
      ≡ (some (split_whitespace (take (i - 1) (drop (start + 1) buf))), drop (start + i + 1) buf)
unfolding next_message
next_found buf start i e k = rw (e, k) refl

Found : List ℕ → Type 0
Found buf =
    (start : ℕ) × (i : ℕ) × (position 60 buf ≡ some start) × (position 62 (drop start buf) ≡ some i)

next_cases : (buf : List ℕ) → (next_message buf ≡ (none, buf)) ⊎ Found buf
unfolding next_message Found
next_cases buf = at_start (position 60 buf) refl
  where
    at_end :
        (start : ℕ) (end : Option ℕ)
        → position 60 buf ≡ some start
        → position 62 (drop start buf) ≡ end
        → (next_message buf ≡ (none, buf)) ⊎ Found buf
    at_end start none e k = inl (rw (e, k) refl)
    at_end start (some i) e k = inr (start, i, e, k)

    at_start :
        (start : Option ℕ) → position 60 buf ≡ start → (next_message buf ≡ (none, buf)) ⊎ Found buf
    at_start none e = inl (rw e refl)
    at_start (some start) e = at_end start (position 62 (drop start buf)) e refl

-- The same on a longer text.
found_longer :
    (buf more : List ℕ) (start i : ℕ)
    → position 60 buf ≡ some start
    → position 62 (drop start buf) ≡ some i
    → next_message (buf ++ more) ≡ (
      some (split_whitespace (take (i - 1) (drop (start + 1) buf))),
      drop (start + i + 1) buf ++ more,
    )
found_longer buf more start i e k =
    let first = position-append 60 buf more start e in
    let second = position-append 62 (drop start buf) more i k in
    let left = length-drop start buf in
    next_found (buf ++ more) start i first.1
      (rw (drop-append_le start buf more (omega (arith, first.0))) second.1)
    ∙ rw
        (
          drop-append_le (start + 1) buf more (omega (arith, first.0)),
          drop-append_le (start + i + 1) buf more (omega (arith, first.0, second.0, left)),
          take-append_le (i - 1) (drop (start + 1) buf) more
              (omega (arith, first.0, second.0, left, length-drop (start + 1) buf)),
        )
        refl

none_not_some :
    (m : List (List ℕ)) (s t : List ℕ) (a : Option (List (List ℕ)) × List ℕ)
    → a ≡ (none, s)
    → a ≡ (some m, t)
    → ⊥
none_not_some m s t a e k = grind arith

next_shrinks :
    (s t : List ℕ) (m : List (List ℕ)) → next_message s ≡ (some m, t) → length t < length s
unfolding Found
next_shrinks s t m h = by_cases (next_cases s)
  where
    by_cases : (next_message s ≡ (none, s)) ⊎ Found s → length t < length s
    by_cases (inl waits) = absurd (none_not_some m s t _ waits h)
    by_cases (inr (start, i, e, k)) = omega (
      arith,
      length-drop (start + i + 1) s,
      (position-append 60 s [] start e).0,
      ap (λ (a : Option (List (List ℕ)) × List ℕ). length a.1) (sym (next_found s start i e k) ∙ h),
    )

next-append :
    (s t : List ℕ) (m : List (List ℕ)) (more : List ℕ)
    → next_message s ≡ (some m, t)
    → next_message (s ++ more) ≡ (some m, t ++ more)
unfolding Found
next-append s t m more h = by_cases (next_cases s)
  where
    by_cases :
        (next_message s ≡ (none, s)) ⊎ Found s → next_message (s ++ more) ≡ (some m, t ++ more)
    by_cases (inl waits) = absurd (none_not_some m s t _ waits h)
    by_cases (inr (start, i, e, k)) =
        found_longer s more start i e k
        ∙ ap (λ (a : Option (List (List ℕ)) × List ℕ). (a.0, a.1 ++ more))
            (sym (next_found s start i e k) ∙ h)

next_waiting :
    (s t : List ℕ) (more : List ℕ)
    → next_message s ≡ (none, t)
    → next_message (s ++ more) ≡ next_message (t ++ more)
unfolding Found
next_waiting s t more h = by_cases (next_cases s)
  where
    by_cases :
        (next_message s ≡ (none, s)) ⊎ Found s → next_message (s ++ more) ≡ next_message (t ++ more)
    by_cases (inl waits) =
        ap (λ (a : Option (List (List ℕ)) × List ℕ). next_message (a.1 ++ more)) (sym waits ∙ h)
    by_cases (inr (start, i, e, k)) = absurd (none_not_some _ t _ _ h (next_found s start i e k))

pub parser-IsFramer : IsFramer next_message push length
parser-IsFramer = record {
  next_shrinks = next_shrinks;
  next-push = next-append;
  next-push_waiting = next_waiting;
  push-push = append_assoc;
}

-- However the stream is cut into pieces, the receive loop does what it does when all arrives at
-- once, and it is left with the same.
pub receive_loop-concat_replies :
    (buf : List ℕ) (s : Shared) (chunk : List ℕ) (chunks : List (List ℕ))
    → receive_loop buf s (chunk ∷ chunks) ≡ receive_chunk buf s (concat (chunk ∷ chunks))
unfolding receive_loop receive_chunk
receive_loop-concat_replies = Streams.read_loop-concat parser-IsFramer receive_message
