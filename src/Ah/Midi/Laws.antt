-- ===== src/Ah/Midi/Laws.antt =====
-- The parser of Midi is a reader of a stream.
use mathlib.Core.List.{append_assoc}
use dante_babel_box.Prelude.{
  ℕ, ◌-◌, ◌≤◌, ◌<◌, Option, none, some, List, [], ◌∷◌, ◌++◌, ◌≡◌, refl, ap, ◌∙◌, sym, arith, length,
  length-drop, take-append_le, drop-append_le, length-append, ltb, inl, inr, Bool-cases, false,
  Option-cases, ◌⊎◌, tests,
}
use dante_babel_box.Prelude.Streams.{IsFramer}
use dante_babel_box.Ah.Midi.{
  Parser, Plan, end_of_sysex, taken, act, push, pending, next_from, next_message,
}

end_of_sysex_fits : (buf : List ℕ) (n : ℕ) → end_of_sysex buf ≡ some n → (1 ≤ n) × (n ≤ length buf)
unfolding end_of_sysex
end_of_sysex_fits [] n h = ground arith
end_of_sysex_fits (b ∷ bs) n h = ground (arith, end_of_sysex_fits bs (n - 1))

end_of_sysex-append :
    (buf more : List ℕ) (n : ℕ) → end_of_sysex buf ≡ some n → end_of_sysex (buf ++ more) ≡ some n
unfolding end_of_sysex
end_of_sysex-append [] more n h = ground arith
end_of_sysex-append (b ∷ bs) more n h = ground (arith, end_of_sysex-append bs more (n - 1))

module _ {R : Type 0} where
  -- A message that is taken is the same on a longer buffer, and leaves fewer octets.
  taken-append :
      (prefix buf more : List ℕ) (r : R) (n : ℕ) (m : List ℕ) (t : Parser R)
      → n ≤ length buf
      → taken prefix buf r n ≡ (some m, t)
      → taken prefix (buf ++ more) r n ≡ (some m, push t more)
  unfolding push
  taken-append prefix buf more r n m t h e =
      rw (take-append_le n buf more h, drop-append_le n buf more h)
        (ap
          (λ (answer : Option (List ℕ) × Parser R).
            (answer.0, record answer.1 { buf = answer.1.buf ++ more }))
          e)

  taken_shrinks :
      (prefix buf : List ℕ) (r : R) (n : ℕ) (m : List ℕ) (t : Parser R)
      → 1 ≤ n
      → n ≤ length buf
      → taken prefix buf r n ≡ (some m, t)
      → length t.buf < length buf
  taken_shrinks prefix buf r n m t pos h e = omega (
    arith,
    length-drop n buf,
    ap (λ (answer : Option (List ℕ) × Parser R). length answer.1.buf) e,
  )

  none_not_some :
      (m : List ℕ) (s t : Parser R) (a : Option (List ℕ) × Parser R)
      → a ≡ (none, s)
      → a ≡ (some m, t)
      → ⊥
  none_not_some m s t a e k = grind arith

-- A plan takes an octet at least.
abbrev pub Positive : {R : Type 0} → Plan R → Type 0
Positive Plan.skip = Unit {0}
Positive (Plan.sysex r) = Unit {0}
Positive (Plan.message prefix n r) = 1 ≤ n

-- What a plan that does not skip comes to on a buffer: waiting, or a message that does not depend
-- on what follows.
module _ {R : Type 0} (p : Plan R) (buf : List ℕ) (running : R) where
  abbrev Waits : Type 0
  Waits =
      (skipped : Option (List ℕ) × Parser R)
      → act p buf running skipped ≡ (none, record { buf = buf; running = running })

  abbrev Takes : List ℕ → ℕ → R → Type 0
  Takes prefix n r =
      (1 ≤ n)
      × (n ≤ length buf)
      × ((skipped : Option (List ℕ) × Parser R) → act p buf running skipped ≡ taken prefix buf r n)
      × ((skipped : Option (List ℕ) × Parser R) (more : List ℕ)
          → act p (buf ++ more) running skipped ≡ taken prefix (buf ++ more) r n)

  abbrev View : Type 0
  View = (p ≡ Plan.skip) ⊎ Waits ⊎ ((prefix : List ℕ) × (n : ℕ) × (r : R) × Takes prefix n r)

view : {R : Type 0} (p : Plan R) (buf : List ℕ) (running : R) → Positive p → View p buf running
view Plan.skip buf running h = inl refl
view (Plan.sysex r) buf running h = elim (Option-cases (end_of_sysex buf)) [
  | inl open_end ↦ inr (inl (λ skipped. rw open_end refl))
  | inr (n, found) ↦
      let fits = end_of_sysex_fits buf n found in
      inr (
        inr (
          [],
          n,
          r,
          (
            fits.0,
            fits.1,
            (λ skipped. rw found refl),
            (λ skipped more. rw (end_of_sysex-append buf more n found) refl),
          ),
        ))
]
view (Plan.message prefix n r) buf running h = elim (Bool-cases (ltb (length buf) n)) [
  | inl short ↦ inr (inl (λ skipped. rw short refl))
  | inr whole ↦ inr (
      inr (
        prefix,
        n,
        r,
        (h, omega tests, (λ skipped. rw whole refl), (λ skipped more. rw (longer more whole) refl)),
      ))
]
  where
    longer : (more : List ℕ) → ltb (length buf) n ≡ false → ltb (length (buf ++ more)) n ≡ false
    longer more whole = omega (tests, length-append buf more)

module _ {R : Type 0} (plan : ℕ → R → Plan R)
    (positive : (first : ℕ) (running : R) → Positive (plan first running)) where
  of_plan :
      (p : Plan R) (first : ℕ) (rest : List ℕ) (running : R)
      → plan first running ≡ p
      → next_from plan (first ∷ rest) running
        ≡ act p (first ∷ rest) running (next_from plan rest running)
  unfolding next_from
  of_plan p first rest running e = rw e refl

  -- The octet in front decides, or it is dropped.
  step_view :
      (first : ℕ) (rest : List ℕ) (running : R) → View (plan first running) (first ∷ rest) running
  step_view first rest running =
      view (plan first running) (first ∷ rest) running (positive first running)

  next_from_shrinks :
      (buf : List ℕ) (running : R) (t : Parser R) (m : List ℕ)
      → next_from plan buf running ≡ (some m, t)
      → length t.buf < length buf
  unfolding next_from
  next_from_shrinks [] running t m h = absurd (none_not_some m _ t _ refl h)
  next_from_shrinks (first ∷ rest) running t m h = elim (step_view first rest running) [
    | inl skip ↦ omega (
      arith,
      next_from_shrinks rest running t m (sym (of_plan Plan.skip first rest running skip) ∙ h),
    )
    | inr (inl waits) ↦ absurd (none_not_some m _ t _ (waits (next_from plan rest running)) h)
    | inr (inr (prefix, n, r, (low, fits, here, _))) ↦
        taken_shrinks prefix (first ∷ rest) r n m t low fits
          (sym (here (next_from plan rest running)) ∙ h)
  ]

  next_from-append :
      (buf : List ℕ) (running : R) (t : Parser R) (m more : List ℕ)
      → next_from plan buf running ≡ (some m, t)
      → next_from plan (buf ++ more) running ≡ (some m, push t more)
  unfolding next_from
  next_from-append [] running t m more h = absurd (none_not_some m _ t _ refl h)
  next_from-append (first ∷ rest) running t m more h = elim (step_view first rest running) [
    | inl skip ↦
        of_plan Plan.skip first (rest ++ more) running skip
        ∙ next_from-append rest running t m more
            (sym (of_plan Plan.skip first rest running skip) ∙ h)
    | inr (inl waits) ↦ absurd (none_not_some m _ t _ (waits (next_from plan rest running)) h)
    | inr (inr (prefix, n, r, (low, fits, here, longer))) ↦
        longer (next_from plan (rest ++ more) running) more
        ∙ taken-append prefix (first ∷ rest) more r n m t fits
            (sym (here (next_from plan rest running)) ∙ h)
  ]

  same_left :
      (more : List ℕ) (a : Option (List ℕ) × Parser R) (u t : Parser R)
      → a ≡ (none, u)
      → a ≡ (none, t)
      → next_from plan (u.buf ++ more) u.running ≡ next_from plan (t.buf ++ more) t.running
  same_left more a u t e k =
      ap (λ (b : Option (List ℕ) × Parser R). next_from plan (b.1.buf ++ more) b.1.running)
        (sym e ∙ k)

  next_from-append_waiting :
      (buf : List ℕ) (running : R) (t : Parser R) (more : List ℕ)
      → next_from plan buf running ≡ (none, t)
      → next_from plan (buf ++ more) running ≡ next_from plan (t.buf ++ more) t.running
  unfolding next_from
  next_from-append_waiting [] running t more h = same_left more _ _ t refl h
  next_from-append_waiting (first ∷ rest) running t more h = elim (step_view first rest running) [
    | inl skip ↦
        of_plan Plan.skip first (rest ++ more) running skip
        ∙ next_from-append_waiting rest running t more
            (sym (of_plan Plan.skip first rest running skip) ∙ h)
    | inr (inl waits) ↦ same_left more _ _ t (waits (next_from plan rest running)) h
    | inr (inr (prefix, n, r, (low, fits, here, longer))) ↦
        absurd (none_not_some _ t _ _ h (here (next_from plan rest running)))
  ]

  -- The parser reads a stream, for every plan that takes an octet at least.
  pub parser-IsFramer : IsFramer (next_message plan) push pending
  unfolding next_message push
  parser-IsFramer = record {
    next_shrinks = λ s t m h. next_from_shrinks s.buf s.running t m h;
    next-push = λ s t m more h. next_from-append s.buf s.running t m more h;
    next-push_waiting = λ s t more h. next_from-append_waiting s.buf s.running t more h;
    push-push = λ s xs ys. ap (λ (buf : List ℕ). record s { buf = buf }) (append_assoc s.buf xs ys);
  }
