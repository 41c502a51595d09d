-- ===== src/Core/GainLock/Moves.antt =====
-- What `settle` and `observe` of gain_lock.rs do to a follower.
use dante_babel_box.Core.GainLock.Ledger.{settle_list-cons}
use dante_babel_box.Oca.{OcaObjectDescriptor, Ono}
use dante_babel_box.Core.GainLock.Settle.{
  hold_with, hold, filtered, observe_locked, everyone, owe, compensate, observe_live, settle_list,
  settle_move, settle_device, is_down, settle_ono, book, settle_one,
}
use dante_babel_box.Prelude.{
  String, Bool, true, false, Option, none, some, List, [], ◌∷◌, ◌≡◌, ◌≢◌, refl, arith, All,
  if◌then◌else◌, Bool-cases, inl, inr, Result, ok, err, map, ◌⊎◌,
}
use dante_babel_box.Prelude.Int.{ℤ, pos, ◌+ℤ◌, ◌-ℤ◌, +ℤ_parts, -ℤ_parts, eq_of_parts}
use dante_babel_box.Core.GainLock.{Problem, Follower, Live, Desks, negligible}
use mathlib.Core.Path.{subst, ◌∙◌}

-- The desk of the follower answers, and takes whatever move it is offered in full.
pub record TakesAll (desks : Desks) (down : List String) (f : Follower) : Type 0 where
  pub ono : Ono
  pub descriptors : List OcaObjectDescriptor
  pub found : f.ono ≡ some ono
  pub connected : desks.describe f.device ≡ some descriptors
  pub up : is_down down f.device ≡ false
  pub takes : (move : ℤ) → desks.nudge f.device ono move ≡ ok move

-- Whatever is owed has been applied, to the last millionth.
abbrev pub Settled : Follower → Follower → Type 0
Settled f f' = (negligible f'.owed ≡ true) × (f'.applied +ℤ f'.owed ≡ f.applied +ℤ f.owed)

book_all : (f : Follower) → Settled f (book f f.owed)
unfolding book
book_all f =
    let zero_left : f.owed -ℤ f.owed ≡ pos 0 = omega (arith, -ℤ_parts, eq_of_parts) in
    rw zero_left (refl, omega (arith, +ℤ_parts, eq_of_parts))

pub settle_one-Settled :
    (desks : Desks) (down : List String) (f : Follower)
    → TakesAll desks down f
    → Settled f (settle_one desks down f).0
settle_one-Settled desks down f t = elim (Bool-cases (negligible f.owed)) [
  | inl small ↦ subst (λ g. Settled f g) (kept small) (small, refl)
  | inr large ↦ subst (λ g. Settled f g) (booked large) (book_all f)
]
  where
    kept : negligible f.owed ≡ true → f ≡ (settle_one desks down f).0
    kept small = unfold settle_one in simp small

    booked : negligible f.owed ≡ false → book f f.owed ≡ (settle_one desks down f).0
    booked large =
        unfold settle_one settle_ono settle_device settle_move in
        ground (arith, large, t.found, t.connected, t.up, t.takes f.owed)

-- The followers after a move of the leader by `delta`: nothing is left owed, and each has moved
-- against the leader by `delta` and whatever it was owed before.
abbrev pub Compensated : ℤ → List Follower → List Follower → Type 0
Compensated delta [] [] = Unit {0}
Compensated delta [] (g ∷ gs) = ⊥
Compensated delta (f ∷ fs) [] = ⊥
Compensated delta (f ∷ fs) (g ∷ gs) =
    ((negligible g.owed ≡ true) × (g.applied +ℤ g.owed ≡ (f.applied +ℤ f.owed) -ℤ delta))
    × Compensated delta fs gs

owe-TakesAll :
    (desks : Desks) (down : List String) (delta : ℤ) (f : Follower)
    → TakesAll desks down f
    → TakesAll desks down (owe delta f)
owe-TakesAll desks down delta f t = record {
  ono = t.ono;
  descriptors = t.descriptors;
  found = t.found;
  connected = t.connected;
  up = t.up;
  takes = t.takes;
}

owe-total : (delta a o : ℤ) → a +ℤ (o -ℤ delta) ≡ (a +ℤ o) -ℤ delta
owe-total delta a o = omega (arith, +ℤ_parts, -ℤ_parts, eq_of_parts)

settle_list-Compensated :
    (desks : Desks) (down : List String) (delta : ℤ) (fs : List Follower)
    → All (TakesAll desks down) fs
    → Compensated delta fs (settle_list desks everyone down (map (owe delta) fs)).0
settle_list-Compensated desks down delta [] h = unfold settle_list in tt
settle_list-Compensated desks down delta (f ∷ fs) h =
    let s = settle_one-Settled desks down (owe delta f) (owe-TakesAll desks down delta f h.0) in
    rw (settle_list-cons desks everyone down (owe delta f) (map (owe delta) fs)) (
      (s.0, s.1 ∙ owe-total delta f.applied f.owed),
      settle_list-Compensated desks down delta fs h.1,
    )

-- A locked signal with a reference and followers that take what they are offered: when the leader
-- moves by at least epsilon, every follower has moved against it by as much, and by what it was
-- owed before, up to less than epsilon that stays owed; the gain is known and the reference kept.
pub leader_move :
    (desks : Desks) (down : List String) (live : Live) (reference previous gain : ℤ)
    → live.reference ≡ some reference
    → live.gain ≡ some previous
    → negligible (gain -ℤ previous) ≡ false
    → All (TakesAll desks down) live.followers
    → Compensated
        (gain -ℤ previous)
        live.followers
        (observe_live desks true down live gain).0.followers
      × ((observe_live desks true down live gain).0.gain ≡ some gain)
      × ((observe_live desks true down live gain).0.reference ≡ some reference)
unfolding observe_live observe_locked
leader_move desks down live reference previous gain r g large h =
    simp (r, g, large, compensate)
      (settle_list-Compensated desks down (gain -ℤ previous) live.followers h, refl, refl)

-- A report that moves nothing: no follower is touched, and no desk is taken for down.
abbrev IsStill : Live → Live × List String → Type 0
IsStill live after = (after.0.followers ≡ live.followers) × (after.1 ≡ [])

compensate-IsStill :
    (desks : Desks) (down : List String) (live : Live) (previous gain : ℤ)
    → negligible (gain -ℤ previous) ≡ true
    → IsStill live (compensate desks down live previous gain)
compensate-IsStill desks down live previous gain small =
    unfold compensate in simp small (refl, refl)

-- While unlocked, before the reference of the lock is known, or within epsilon of the last gain
-- (such as the same value reported again), a report of the leader moves no follower and takes no
-- desk for down.
pub report_still :
    (desks : Desks) (locked : Bool) (down : List String) (live : Live) (gain : ℤ)
    → ((locked ≡ false) ⊎ (live.reference ≡ none))
      ⊎ ((previous : ℤ) × (live.gain ≡ some previous) × (negligible (gain -ℤ previous) ≡ true))
    → ((observe_live desks locked down live gain).0.followers ≡ live.followers)
      × ((observe_live desks locked down live gain).1 ≡ [])
unfolding observe_live observe_locked
report_still desks locked down live gain (inl (inl off)) = rw off (refl, refl)
report_still desks false down live gain (inl (inr unarmed)) = (refl, refl)
report_still desks true down live gain (inl (inr unarmed)) = simp unarmed (refl, refl)
report_still desks false down live gain (inr same) = (refl, refl)
report_still desks true down live gain (inr (previous, known, small)) = still live.reference
  where
    still :
        (reference : Option ℤ)
        → IsStill live (observe_locked desks down live gain (filtered live.gain reference))
    still none = (refl, refl)
    still (some r) = simp known (compensate-IsStill desks down live previous gain small)

-- Nothing applied and nothing let go, with the error that the desk gave.
abbrev pub IsKept : Follower → Follower × Bool → Type 0
IsKept f after =
    (after.0.applied ≡ f.applied)
    × (after.0.owed ≡ f.owed)
    × ((e : String) × (after.0.error ≡ some (Problem.failed e)))

settle_move-IsKept :
    (f : Follower) (answer : Result String ℤ)
    → (settle_move f answer).1 ≡ true
    → IsKept f (settle_move f answer)
unfolding settle_move
settle_move-IsKept f (ok applied) bad = grind arith
settle_move-IsKept f (err e) bad = (refl, refl, (e, refl))

settle_device-IsKept :
    (f : Follower) (ds : Option (List OcaObjectDescriptor)) (answer : Result String ℤ)
    → (settle_device f ds answer).1 ≡ true
    → IsKept f (settle_device f ds answer)
unfolding settle_device
settle_device-IsKept f none answer bad = grind arith
settle_device-IsKept f (some ds) answer bad = settle_move-IsKept f answer bad

settle_ono-IsKept :
    (desks : Desks) (f : Follower) (ono : Option Ono)
    → (settle_ono desks f ono).1 ≡ true
    → IsKept f (settle_ono desks f ono)
unfolding settle_ono
settle_ono-IsKept desks f none bad = grind arith
settle_ono-IsKept desks f (some ono) bad = settle_device-IsKept f (desks.describe f.device) _ bad

-- A move that takes its desk for down applies nothing and lets nothing go: all that was owed stays
-- owed, with the error of the desk. It was owed at least epsilon, and the desk was not down before.
pub settle_one-IsKept :
    (desks : Desks) (down : List String) (f : Follower)
    → (settle_one desks down f).1 ≡ true
    → IsKept f (settle_one desks down f)
      × (negligible f.owed ≡ false)
      × (is_down down f.device ≡ false)
unfolding settle_one
settle_one-IsKept desks down f bad = elim (Bool-cases (negligible f.owed)) [
  | inl small ↦ absurd (idle small bad)
  | inr large ↦ elim (Bool-cases (is_down down f.device)) [
    | inl away ↦ absurd (held large away bad)
    | inr up ↦
        rw (large, up, if◌then◌else◌)
          (settle_ono-IsKept desks f f.ono (asked large up bad), refl, refl)
  ]
]
  where
    idle : negligible f.owed ≡ true → (settle_one desks down f).1 ≡ true → ⊥
    idle small k = unfold settle_one in grind arith

    held :
        negligible f.owed ≡ false
        → is_down down f.device ≡ true
        → (settle_one desks down f).1 ≡ true
        → ⊥
    held large away k = unfold settle_one in grind arith

    asked :
        negligible f.owed ≡ false
        → is_down down f.device ≡ false
        → (settle_one desks down f).1 ≡ true
        → (settle_ono desks f f.ono).1 ≡ true
    asked large up k = unfold settle_one in grind arith

-- A follower on a desk that is down keeps what it has applied and what it owes, whatever its desk
-- would answer, and has an error when it owes anything.
pub settle_one_waiting :
    (desks : Desks) (down : List String) (f : Follower)
    → is_down down f.device ≡ true
    → negligible f.owed ≡ false
    → ((settle_one desks down f).0.applied ≡ f.applied)
      × ((settle_one desks down f).0.owed ≡ f.owed)
      × ((settle_one desks down f).0.error ≢ none)
      × ((settle_one desks down f).1 ≡ false)
unfolding settle_one hold
settle_one_waiting desks down f away large = rw (away, large, if◌then◌else◌) (waiting f.error refl)
  where
    waiting :
        (e : Option Problem)
        → f.error ≡ e
        → ((hold_with f e).applied ≡ f.applied)
          × ((hold_with f e).owed ≡ f.owed)
          × ((hold_with f e).error ≢ none)
          × (false ≡ false)
    waiting none q = unfold hold_with in (refl, refl, (λ k. grind arith), refl)
    waiting (some p) q = (refl, refl, (λ k. grind arith), refl)
