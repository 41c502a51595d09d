-- ===== src/Prelude/Streams.antt =====
-- A reader that takes messages off the front of a byte stream, which arrives in pieces. An
-- implementation is its `next` and `push`; the laws make what it reads independent of the cuts.
use mathlib.Core.List.{append-nil}
use dante_babel_box.Prelude.{
  ℕ, zero, suc, ◌≤◌, ◌<◌, Option, none, some, List, [], ◌∷◌, ◌++◌, ◌≡◌, refl, ap, ◌∙◌, sym, arith,
}

abbrev pub concat : List (List ℕ) → List ℕ
concat [] = []
concat (c ∷ cs) = c ++ concat cs

module _ {S M : Type 0} where
  -- The loop's body on the answer of `next`, with what the rest of the loop gives.
  abbrev pub after : Option M → S → List M × S → List M × S
  after none t rest = ([], t)
  after (some m) t rest = (m ∷ rest.0, rest.1)

  abbrev pub joined : List M → List M × S → List M × S
  joined ms rest = (ms ++ rest.0, rest.1)

module _ {S M : Type 0} (next : S → Option M × S) (push : S → List ℕ → S) (pending : S → ℕ) where
  unfoldable pub drain_from : ℕ → S → List M × S
  drain_from zero s = ([], s)
  drain_from (suc n) s = after (next s).0 (next s).1 (drain_from n (next s).1)

  -- `while let Some(msg) = next(..)`: each round takes an octet off at least.
  unfoldable pub drain : S → List M × S
  unfolding drain_from
  drain s = drain_from (suc (pending s)) s

  module _ {C : Type 0} (handle : C → M → C) where
    unfoldable pub handle_all : C → List M → C
    handle_all c [] = c
    handle_all c (m ∷ ms) = handle_all (handle c m) ms

    -- A read task's round: the piece that arrived is pushed, and what is complete is handled.
    unfoldable pub read_chunk : S → C → List ℕ → S × C
    unfolding drain handle_all
    read_chunk s c chunk = ((drain (push s chunk)).1, handle_all c (drain (push s chunk)).0)

    unfoldable pub read_loop : S → C → List (List ℕ) → S × C
    unfolding read_chunk
    read_loop s c [] = (s, c)
    read_loop s c (chunk ∷ chunks) =
        read_loop (read_chunk s c chunk).0 (read_chunk s c chunk).1 chunks

  -- The laws of a reader; `pending` is how many octets are left.
  pub record IsFramer : Type 0 where
    pub next_shrinks : (s t : S) (m : M) → next s ≡ (some m, t) → pending t < pending s
    -- a message that is found does not depend on what arrives after it
    pub next-push :
        (s t : S) (m : M) (more : List ℕ)
        → next s ≡ (some m, t)
        → next (push s more) ≡ (some m, push t more)
    -- what is dropped while waiting makes no difference later
    pub next-push_waiting :
        (s t : S) (more : List ℕ) → next s ≡ (none, t) → next (push s more) ≡ next (push t more)
    pub push-push : (s : S) (xs ys : List ℕ) → push (push s xs) ys ≡ push s (xs ++ ys)

module _ {S M : Type 0} {next : S → Option M × S} {push : S → List ℕ → S} {pending : S → ℕ}
    (laws : IsFramer next push pending) where
  open laws use {next_shrinks, next-push, next-push_waiting, push-push}

  drain_from_waiting :
      (n : ℕ) (s t : S) → next s ≡ (none, t) → drain_from next push pending (suc n) s ≡ ([], t)
  unfolding drain_from
  drain_from_waiting n s t e = rw e refl

  drain_from_found :
      (n : ℕ) (s t : S) (m : M)
      → next s ≡ (some m, t)
      → drain_from next push pending (suc n) s ≡ joined (m ∷ []) (drain_from next push pending n t)
  unfolding drain_from
  drain_from_found n s t m e = rw e refl

  same_next :
      (n k : ℕ) (a b : S) (answer : Option M × S)
      → next a ≡ answer
      → next b ≡ answer
      → pending a ≤ n
      → pending b ≤ k
      → drain_from next push pending (suc n) a ≡ drain_from next push pending (suc k) b
  same_next n k a b (none, t) e q h l =
      drain_from_waiting n a t e ∙ sym (drain_from_waiting k b t q)
  same_next zero k a b (some m, t) e q h l = absurd (omega (arith, next_shrinks a t m e))
  same_next (suc n) zero a b (some m, t) e q h l = absurd (omega (arith, next_shrinks b t m q))
  same_next (suc n) (suc k) a b (some m, t) e q h l =
      drain_from_found (suc n) a t m e
      ∙ ap (joined (m ∷ [])) (
          same_next n k t t (next t) refl refl (omega (arith, next_shrinks a t m e))
            (omega (arith, next_shrinks b t m q)))
      ∙ sym (drain_from_found (suc k) b t m q)

  pub drain_waiting : (s t : S) → next s ≡ (none, t) → drain next push pending s ≡ ([], t)
  unfolding drain
  drain_waiting s t e = drain_from_waiting (pending s) s t e

  pub drain_found :
      (s t : S) (m : M)
      → next s ≡ (some m, t)
      → drain next push pending s ≡ joined (m ∷ []) (drain next push pending t)
  unfolding drain
  drain_found s t m e = enough (pending s) (next_shrinks s t m e)
    where
      enough :
          (n : ℕ)
          → pending t < n
          → drain_from next push pending (suc n) s
            ≡ joined (m ∷ []) (drain_from next push pending (suc (pending t)) t)
      enough zero h = absurd (omega arith)
      enough (suc n) h =
          drain_from_found (suc n) s t m e
          ∙ ap (joined (m ∷ []))
              (same_next n (pending t) t t (next t) refl refl (omega arith) (omega arith))

  drain_from-push :
      (n k : ℕ) (s : S) (more : List ℕ) (answer : Option M × S)
      → next s ≡ answer
      → pending s ≤ n
      → pending (push s more) ≤ k
      → drain_from next push pending (suc k) (push s more)
        ≡ joined
            (drain_from next push pending (suc n) s).0
            (drain next push pending (push (drain_from next push pending (suc n) s).1 more))
  unfolding drain
  drain_from-push n k s more (none, t) e h l = rw (drain_from_waiting n s t e) (
      same_next k (pending (push t more)) (push s more) (push t more) (next (push t more))
        (next-push_waiting s t more e) refl l (omega arith))
  drain_from-push zero k s more (some m, t) e h l = absurd (omega (arith, next_shrinks s t m e))
  drain_from-push (suc n) zero s more (some m, t) e h l =
      absurd (omega (arith, next_shrinks (push s more) (push t more) m (next-push s t m more e)))
  drain_from-push (suc n) (suc k) s more (some m, t) e h l =
      drain_from_found (suc k) (push s more) (push t more) m (next-push s t m more e)
      ∙ ap (joined (m ∷ [])) (
          drain_from-push n k t more (next t) refl (omega (arith, next_shrinks s t m e))
            (omega (arith, next_shrinks (push s more) (push t more) m (next-push s t m more e))))
      ∙ rw (drain_from_found (suc n) s t m e) refl

  -- Draining in the middle of what arrives changes neither the messages nor what is left.
  pub drain-push :
      (s : S) (more : List ℕ)
      → drain next push pending (push s more)
        ≡ joined
            (drain next push pending s).0
            (drain next push pending (push (drain next push pending s).1 more))
  unfolding drain
  drain-push s more =
      drain_from-push (pending s) (pending (push s more)) s more (next s) refl (omega arith)
        (omega arith)

  module _ {C : Type 0} (handle : C → M → C) where
    handle_all-append :
        (c : C) (xs ys : List M)
        → handle_all next push pending handle c (xs ++ ys)
          ≡ handle_all next push pending handle (handle_all next push pending handle c xs) ys
    unfolding handle_all
    handle_all-append c [] ys = refl
    handle_all-append c (x ∷ xs) ys = handle_all-append (handle c x) xs ys

    read_chunk-append :
        (s : S) (c : C) (chunk more : List ℕ)
        → read_chunk next push pending handle
            (read_chunk next push pending handle s c chunk).0
            (read_chunk next push pending handle s c chunk).1
            more
          ≡ read_chunk next push pending handle s c (chunk ++ more)
    unfolding read_chunk
    read_chunk-append s c chunk more =
        rw (sym (push-push s chunk more), drain-push (push s chunk) more)
          (ap
            (λ (d : C). (
              (drain next push pending (push (drain next push pending (push s chunk)).1 more)).1,
              d,
            ))
            (sym (
              handle_all-append c (drain next push pending (push s chunk)).0
                (drain next push pending
                  (push (drain next push pending (push s chunk)).1 more)).0)))

    -- However what arrives is cut into pieces, the same is done with it, and the same is left.
    pub read_loop-concat :
        (s : S) (c : C) (chunk : List ℕ) (chunks : List (List ℕ))
        → read_loop next push pending handle s c (chunk ∷ chunks)
          ≡ read_chunk next push pending handle s c (concat (chunk ∷ chunks))
    unfolding read_loop
    read_loop-concat s c chunk [] = rw (append-nil chunk) refl
    read_loop-concat s c chunk (d ∷ ds) =
        read_loop-concat (read_chunk next push pending handle s c chunk).0
          (read_chunk next push pending handle s c chunk).1 d ds
        ∙ read_chunk-append s c chunk (concat (d ∷ ds))
