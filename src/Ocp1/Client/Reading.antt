-- ===== src/Ocp1/Client/Reading.antt =====
-- The read task of client.rs: how the stream is cut into pieces does not matter.
use mathlib.Core.List.{append_assoc}
use dante_babel_box.Prelude.{
  drop-append_le, take-append_le, length-drop, ℕ, ◌<◌, Option, none, some, List, ◌∷◌, ◌++◌, ◌≡◌,
  refl, ap, ◌∙◌, sym, arith, take, drop, Result, ok, err,
}
use dante_babel_box.Prelude.Streams.{IsFramer, concat}
use dante_babel_box.Prelude.Streams
use dante_babel_box.Ocp1.{Error}
use dante_babel_box.Ocp1.Pdu.{Message, pdu_len, decode_pdu}
use dante_babel_box.Ocp1.Pdu.Framing.{error_not_none, some_not_none, pdu_len-append, pdu_len_sound}
use dante_babel_box.Ocp1.Client.{
  read_chunk, read_loop, unread, on_messages, ReadState, next_frame, take_frame, extend, Connection,
  on_messages, decoded, unread, read_loop, read_chunk,
}

next_frame_waiting :
    (buf : List ℕ)
    → pdu_len buf ≡ ok none
    → next_frame (ReadState.reading buf) ≡ (none, ReadState.reading buf)
unfolding next_frame take_frame
next_frame_waiting buf e = rw e refl

next_frame_lost :
    (buf : List ℕ) (x : Error)
    → pdu_len buf ≡ err x
    → next_frame (ReadState.reading buf) ≡ (none, ReadState.returned)
unfolding next_frame take_frame
next_frame_lost buf x e = rw e refl

next_frame_found :
    (buf : List ℕ) (n : ℕ)
    → pdu_len buf ≡ ok (some n)
    → next_frame (ReadState.reading buf)
      ≡ (some (decoded (decode_pdu (take n buf))), ReadState.reading (drop n buf))
unfolding next_frame take_frame
next_frame_found buf n e = rw e refl

stopped : next_frame ReadState.returned ≡ (none, ReadState.returned)
unfolding next_frame
stopped = refl

module _ (s t : ReadState) (ms : List Message) (h : next_frame s ≡ (some ms, t)) where
  -- What a frame that is found is.
  frame_of :
      (buf : List ℕ) × (n : ℕ) × (s ≡ ReadState.reading buf)
      × (pdu_len buf ≡ ok (some n))
      × (ms ≡ decoded (decode_pdu (take n buf)))
      × (t ≡ ReadState.reading (drop n buf))
  frame_of = of_state s h
    where
      of_answer :
          (buf : List ℕ) (r : Result Error (Option ℕ))
          → pdu_len buf ≡ r
          → next_frame (ReadState.reading buf) ≡ (some ms, t)
          → (n : ℕ) × (pdu_len buf ≡ ok (some n))
            × (ms ≡ decoded (decode_pdu (take n buf)))
            × (t ≡ ReadState.reading (drop n buf))
      of_answer buf (ok none) e k = absurd (grind (arith, next_frame_waiting buf e))
      of_answer buf (err x) e k = absurd (grind (arith, next_frame_lost buf x e))
      of_answer buf (ok (some n)) e k =
          let f = next_frame_found buf n e in (n, e, grind arith, grind arith)

      of_state :
          (s : ReadState)
          → next_frame s ≡ (some ms, t)
          → (buf : List ℕ) × (n : ℕ) × (s ≡ ReadState.reading buf)
            × (pdu_len buf ≡ ok (some n))
            × (ms ≡ decoded (decode_pdu (take n buf)))
            × (t ≡ ReadState.reading (drop n buf))
      of_state (ReadState.reading buf) k =
          let (n, a, b, c) = of_answer buf (pdu_len buf) refl k in (buf, n, refl, a, b, c)
      of_state ReadState.returned k = absurd (grind (arith, stopped))

  next_frame_shrinks : unread t < unread s
  next_frame_shrinks =
      let (buf, n, a, e, b, c) = frame_of in
      let sound = pdu_len_sound buf n e in
      shrinks a c (omega (arith, sound.0, sound.1, length-drop n buf))
    where
      shrinks : {u v : ReadState} → s ≡ u → t ≡ v → unread v < unread u → unread t < unread s
      shrinks a c k = rw (a, c) k

  next_frame-extend : (more : List ℕ) → next_frame (extend s more) ≡ (some ms, extend t more)
  unfolding extend
  next_frame-extend more =
      let (buf, n, a, e, b, c) = frame_of in
      let fits = (pdu_len_sound buf n e).1 in
      same a b c (
        next_frame_found (buf ++ more) n
          (pdu_len-append buf more (some_not_none n (pdu_len buf) e) ∙ e)
        ∙ rw (take-append_le n buf more fits, drop-append_le n buf more fits) refl)
    where
      same :
          {u v : ReadState} {ns : List Message}
          → s ≡ u
          → ms ≡ ns
          → t ≡ v
          → next_frame (extend u more) ≡ (some ns, extend v more)
          → next_frame (extend s more) ≡ (some ms, extend t more)
      same a b c k = rw (a, b, c) k

next_frame-extend_waiting :
    (s t : ReadState) (more : List ℕ)
    → next_frame s ≡ (none, t)
    → next_frame (extend s more) ≡ next_frame (extend t more)
unfolding extend
next_frame-extend_waiting ReadState.returned t more h =
    ap (λ (t : ReadState). next_frame (extend t more))
      (ap (λ (answer : Option (List Message) × ReadState). answer.1) (sym stopped ∙ h))
next_frame-extend_waiting (ReadState.reading buf) t more h = of_answer (pdu_len buf) refl
  where
    left :
        (u : ReadState)
        → next_frame (ReadState.reading buf) ≡ (none, u)
        → next_frame (extend u more) ≡ next_frame (extend t more)
    left u e =
        ap (λ (answer : Option (List Message) × ReadState). next_frame (extend answer.1 more))
          (sym e ∙ h)

    of_answer :
        (r : Result Error (Option ℕ))
        → pdu_len buf ≡ r
        → next_frame (ReadState.reading (buf ++ more)) ≡ next_frame (extend t more)
    of_answer (ok none) e = left (ReadState.reading buf) (next_frame_waiting buf e)
    of_answer (err x) e =
        next_frame_lost (buf ++ more) x (pdu_len-append buf more (error_not_none x _ e) ∙ e)
        ∙ sym stopped
        ∙ left ReadState.returned (next_frame_lost buf x e)
    of_answer (ok (some n)) e = absurd (grind (arith, next_frame_found buf n e))

extend-extend : (s : ReadState) (xs ys : List ℕ) → extend (extend s xs) ys ≡ extend s (xs ++ ys)
unfolding extend
extend-extend (ReadState.reading buf) xs ys = ap ReadState.reading (append_assoc buf xs ys)
extend-extend ReadState.returned xs ys = refl

frames : IsFramer next_frame extend unread
frames = record {
  next_shrinks = next_frame_shrinks;
  next-push = λ s t ms more h. next_frame-extend s t ms h more;
  next-push_waiting = next_frame-extend_waiting;
  push-push = extend-extend;
}

-- However the stream is cut into pieces, the read task does to the connection what it does when all
-- arrives at once, and it is left with the same.
pub read_loop-concat_pieces :
    (s : ReadState) (c : Connection) (chunk : List ℕ) (chunks : List (List ℕ))
    → read_loop s c (chunk ∷ chunks) ≡ read_chunk s c (concat (chunk ∷ chunks))
unfolding read_loop read_chunk
read_loop-concat_pieces = Streams.read_loop-concat frames on_messages
