-- ===== src/Core/Law/Followers.antt =====
-- The gain lock of gain_lock.rs over a desk that moves its trim by the arithmetic of law.rs.
use dante_babel_box.Prelude.{
  ℕ, ◌*◌, ◌≤◌, String, false, none, some, List, ◌≡◌, refl, ap, sym, arith, ok, if◌then◌else◌, inl,
  inr, Bool-cases,
}
use dante_babel_box.Prelude.Int.{
  ℤ, pos, ◌+ℤ◌, ◌-ℤ◌, ◌≤ℤ◌, abs, int_laws, eq_of_parts, pos_part, neg_part,
}
use dante_babel_box.Oca.{Ono, OcaObjectDescriptor}
use dante_babel_box.Core.GainLock.{Follower, Desks, negligible}
use dante_babel_box.Core.GainLock.Settle.{
  is_down, settle_one, settle_ono, settle_device, settle_move, book,
}
use dante_babel_box.Core.Law.{DbLaw, quantize, nudge}
use dante_babel_box.Core.Law.Nudges.{IsGrid, nudge_exact, nudge_near}

-- The desk of the follower answers, with its trim at `trim`, by the arithmetic of a law.
pub record MovesBy (law : DbLaw) (trim : ℤ) (desks : Desks) (down : List String) (f : Follower)
    : Type 0 where
  pub ono : Ono
  pub descriptors : List OcaObjectDescriptor
  pub found : f.ono ≡ some ono
  pub connected : desks.describe f.device ≡ some descriptors
  pub up : is_down down f.device ≡ false
  pub answers : (move : ℤ) → desks.nudge f.device ono move ≡ ok (nudge law trim move).1

-- What is left of a move is what lies between where it was to go and where it went.
left_of :
    (stands owed applied target : ℤ)
    → stands +ℤ applied ≡ target
    → stands +ℤ owed -ℤ target ≡ owed -ℤ applied
left_of stands owed applied target e =
    eq_of_parts _ _ (omega (int_laws, ap pos_part e, ap neg_part e))

gone :
    (stands before applied target : ℤ)
    → stands +ℤ applied ≡ target
    → before +ℤ applied -ℤ before ≡ target -ℤ stands
gone stands before applied target e =
    eq_of_parts _ _ (omega (int_laws, ap pos_part e, ap neg_part e))

left_small :
    (left : ℤ) (step : ℕ)
    → 2 * abs left ≤ step
    → 2 * abs (if negligible left then pos 0 else left) ≤ step
left_small left step h = elim (Bool-cases (negligible left)) [
  | inl small ↦ rw small (omega arith)
  | inr large ↦ rw large h
]

book_near :
    (f : Follower) (stands applied target : ℤ) (step : ℕ)
    → stands +ℤ applied ≡ target
    → 2 * abs (stands +ℤ f.owed -ℤ target) ≤ step
    → (2 * abs (book f applied).owed ≤ step)
      × ((book f applied).applied -ℤ f.applied ≡ target -ℤ stands)
      × ((book f applied).error ≡ none)
unfolding book
book_near f stands applied target step e h = (
  left_small (f.owed -ℤ applied) step (rw (sym (left_of stands f.owed applied target e)) h),
  gone stands f.applied applied target e,
  refl,
)

module _ (law : DbLaw) (grid : IsGrid law) (trim : ℤ) (desks : Desks) (down : List String)
    (f : Follower) (m : MovesBy law trim desks down f) where
  booked :
      negligible f.owed ≡ false → (settle_one desks down f).0 ≡ book f (nudge law trim f.owed).1
  booked large =
      unfold settle_one settle_ono settle_device settle_move in
      ground (arith, large, m.found, m.connected, m.up, m.answers f.owed)

  -- A follower that owes something, on a desk that answers and whose trim the whole move would
  -- leave in its range, owes at most half a step of the desk's grid after `settle`. Its book has
  -- moved by exactly what the desk's trim has, and it has no error.
  pub settle_one_near :
      negligible f.owed ≡ false
      → law.min_db ≤ℤ quantize law trim +ℤ f.owed
      → quantize law trim +ℤ f.owed ≤ℤ law.max_db
      → (2 * abs (settle_one desks down f).0.owed ≤ law.step_db)
        × ((settle_one desks down f).0.applied -ℤ f.applied
            ≡ (nudge law trim f.owed).0 -ℤ quantize law trim)
        × ((settle_one desks down f).0.error ≡ none)
  settle_one_near large low high = rw (booked large) (
      book_near f (quantize law trim) (nudge law trim f.owed).1 (nudge law trim f.owed).0
        law.step_db (nudge_exact law grid trim f.owed).2 (nudge_near law grid trim f.owed low high))
