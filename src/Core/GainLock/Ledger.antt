-- ===== src/Core/GainLock/Ledger.antt =====
-- The books of gain_lock.rs: for every follower what was applied and what is owed make up the move
-- of the leader since the lock, up to what single steps let go below epsilon.
use dante_babel_box.Prelude.{
  ℕ, ◌+◌, ◌≤◌, String, Bool, true, Option, none, some, List, [], ◌∷◌, ◌≡◌, refl, arith, ltb→lt, All,
  All-imp, if◌then◌else◌, Bool-cases, inl, inr, Result, ok, err, map,
}
use dante_babel_box.Prelude.Int.{ℤ, ◌+ℤ◌, ◌-ℤ◌, pos_part, neg_part, +ℤ_parts, -ℤ_parts}
use dante_babel_box.Core.GainLock.{Problem, Follower, Live, Desks, negligible}
use dante_babel_box.Core.GainLock.Settle.{
  is_down, book, settle_move, hold, settle_one, settle_list, everyone, owe, compensate,
  observe_live, filtered, hold_with, settle_ono, settle_device, observe_locked,
}
use dante_babel_box.Oca.{Ono, OcaObjectDescriptor}

-- |x| ≤ slack
abbrev pub Within : ℕ → ℤ → Type 0
Within slack x = (pos_part x ≤ slack + neg_part x) × (neg_part x ≤ slack + pos_part x)

-- applied + owed = -(gain - reference), up to `slack`
abbrev pub IsBalanced : ℕ → ℤ → ℤ → Follower → Type 0
IsBalanced slack reference gain f = Within slack ((f.applied +ℤ f.owed) +ℤ (gain -ℤ reference))

-- A signal with no reference yet has nothing on its books.
abbrev pub Books : ℕ → Option ℤ → Option ℤ → List Follower → Type 0
Books slack none gain fs = All (λ f. Within slack (f.applied +ℤ f.owed)) fs
Books slack (some reference) none fs = ⊥
Books slack (some reference) (some gain) fs = All (IsBalanced slack reference gain) fs

abbrev pub IsLedger : ℕ → Live → Type 0
IsLedger slack live = Books slack live.reference live.gain live.followers

-- Two followers with the same total, up to epsilon.
pub SameTotal : Follower → Follower → Type 0
SameTotal f g = Within 99 ((f.applied +ℤ f.owed) -ℤ (g.applied +ℤ g.owed))

SameTotal-refl : (f : Follower) → SameTotal f f
unfolding SameTotal
SameTotal-refl f = omega (arith, -ℤ_parts)

book-SameTotal : (f : Follower) (applied : ℤ) → SameTotal f (book f applied)
unfolding book SameTotal
book-SameTotal f a = elim (Bool-cases (negligible (f.owed -ℤ a))) [
  | inl small ↦ rw small (omega (arith, -ℤ_parts, +ℤ_parts, ltb→lt _ _ small))
  | inr large ↦ rw large (omega (arith, -ℤ_parts, +ℤ_parts))
]

error-SameTotal : (f : Follower) (e : Option Problem) → SameTotal f (record f { error = e })
unfolding SameTotal
error-SameTotal f e = omega (arith, -ℤ_parts)

hold_with-SameTotal : (f : Follower) (e : Option Problem) → SameTotal f (hold_with f e)
unfolding hold_with
hold_with-SameTotal f none = error-SameTotal f (some Problem.not_answering)
hold_with-SameTotal f (some e) = SameTotal-refl f

settle_move-SameTotal :
    (f : Follower) (answer : Result String ℤ) → SameTotal f (settle_move f answer).0
unfolding settle_move
settle_move-SameTotal f (ok applied) = book-SameTotal f applied
settle_move-SameTotal f (err e) = error-SameTotal f (some (Problem.failed e))

settle_device-SameTotal :
    (f : Follower) (descriptors : Option (List OcaObjectDescriptor)) (answer : Result String ℤ)
    → SameTotal f (settle_device f descriptors answer).0
unfolding settle_device
settle_device-SameTotal f none answer = error-SameTotal f (some Problem.not_connected)
settle_device-SameTotal f (some ds) answer = settle_move-SameTotal f answer

settle_ono-SameTotal :
    (desks : Desks) (f : Follower) (ono : Option Ono) → SameTotal f (settle_ono desks f ono).0
unfolding settle_ono
settle_ono-SameTotal desks f none = SameTotal-refl f
settle_ono-SameTotal desks f (some ono) =
    settle_device-SameTotal f (desks.describe f.device) (desks.nudge f.device ono f.owed)

-- Settling keeps the total of a follower, whatever its desk answers.
pub settle_one-SameTotal :
    (desks : Desks) (down : List String) (f : Follower) → SameTotal f (settle_one desks down f).0
unfolding settle_one hold
settle_one-SameTotal desks down f = elim (Bool-cases (negligible f.owed)) [
  | inl small ↦ rw (small, if◌then◌else◌) (SameTotal-refl f)
  | inr large ↦ elim (Bool-cases (is_down down f.device)) [
    | inl away ↦ rw (large, away, if◌then◌else◌) (hold_with-SameTotal f f.error)
    | inr up ↦ rw (large, up, if◌then◌else◌) (settle_ono-SameTotal desks f f.ono)
  ]
]

IsBalanced-SameTotal :
    (slack : ℕ) (r g : ℤ) (f f' : Follower)
    → SameTotal f f'
    → IsBalanced slack r g f
    → IsBalanced (slack + 99) r g f'
unfolding SameTotal
IsBalanced-SameTotal slack r g f f' s h = omega (arith, -ℤ_parts, +ℤ_parts)

Within-SameTotal :
    (slack : ℕ) (f f' : Follower)
    → SameTotal f f'
    → Within slack (f.applied +ℤ f.owed)
    → Within (slack + 99) (f'.applied +ℤ f'.owed)
unfolding SameTotal
Within-SameTotal slack f f' s h = omega (arith, -ℤ_parts, +ℤ_parts)

owe-IsBalanced :
    (slack : ℕ) (r previous gain : ℤ) (f : Follower)
    → IsBalanced slack r previous f
    → IsBalanced slack r gain (owe (gain -ℤ previous) f)
owe-IsBalanced slack r previous gain f h = omega (arith, -ℤ_parts, +ℤ_parts)

pub settle_list-cons :
    (desks : Desks) (chosen : Follower → Bool) (down : List String) (f : Follower)
    (fs : List Follower)
    → (settle_list desks chosen down (f ∷ fs)).0
      ≡ (if chosen f then (settle_one desks down f).0 else f) ∷ (settle_list desks chosen down fs).0
unfolding settle_list
settle_list-cons desks chosen down f fs = ground arith

-- A settled list keeps whatever holds of each follower and survives a change under epsilon.
pub settle_list-All :
    (P Q : Follower → Type 0)
    → ((f f' : Follower) → SameTotal f f' → P f → Q f')
    → (desks : Desks) (chosen : Follower → Bool) (down : List String) (fs : List Follower)
    → All P fs
    → All Q (settle_list desks chosen down fs).0
settle_list-All P Q keep desks chosen down [] h = unfold settle_list in tt
settle_list-All P Q keep desks chosen down (f ∷ fs) h =
    rw (settle_list-cons desks chosen down f fs) (
      elim (Bool-cases (chosen f)) [
        | inl picked ↦ rw picked (keep f _ (settle_one-SameTotal desks down f) h.0)
        | inr left ↦ rw left (keep f f (SameTotal-refl f) h.0)
      ],
      settle_list-All P Q keep desks chosen down fs h.1,
    )

Within-weaken : (slack : ℕ) (x : ℤ) → Within slack x → Within (slack + 99) x
Within-weaken slack x h = omega arith

-- A settled signal is on its books, up to one more epsilon.
pub settle_list-Books :
    (slack : ℕ) (reference gain : Option ℤ) (desks : Desks) (chosen : Follower → Bool)
    (down : List String) (fs : List Follower)
    → Books slack reference gain fs
    → Books (slack + 99) reference gain (settle_list desks chosen down fs).0
settle_list-Books slack none gain desks chosen down fs h =
    settle_list-All _ _ (Within-SameTotal slack) desks chosen down fs h
settle_list-Books slack (some r) none desks chosen down fs h = h
settle_list-Books slack (some r) (some g) desks chosen down fs h =
    settle_list-All _ _ (IsBalanced-SameTotal slack r g) desks chosen down fs h

pub Books-weaken :
    (slack : ℕ) (reference gain : Option ℤ) (fs : List Follower)
    → Books slack reference gain fs
    → Books (slack + 99) reference gain fs
Books-weaken slack none gain fs h = All-imp _ _ fs (λ f k. Within-weaken slack _ k) h
Books-weaken slack (some r) none fs h = h
Books-weaken slack (some r) (some g) fs h = All-imp _ _ fs (λ f k. Within-weaken slack _ k) h

owe-All :
    (slack : ℕ) (r previous gain : ℤ) (fs : List Follower)
    → All (IsBalanced slack r previous) fs
    → All (IsBalanced slack r gain) (map (owe (gain -ℤ previous)) fs)
owe-All slack r previous gain [] h = tt
owe-All slack r previous gain (f ∷ fs) h =
    (owe-IsBalanced slack r previous gain f h.0, owe-All slack r previous gain fs h.1)

-- A gain within epsilon of the last one: nothing moves, and the books are off by less than epsilon.
drift-IsBalanced :
    (slack : ℕ) (r previous gain : ℤ) (f : Follower)
    → negligible (gain -ℤ previous) ≡ true
    → IsBalanced slack r previous f
    → IsBalanced (slack + 99) r gain f
drift-IsBalanced slack r previous gain f small h =
    omega (arith, -ℤ_parts, +ℤ_parts, ltb→lt _ _ small)

compensate-Books :
    (slack : ℕ) (desks : Desks) (down : List String) (live : Live) (r previous gain : ℤ)
    → live.reference ≡ some r
    → All (IsBalanced slack r previous) live.followers
    → IsLedger (slack + 99) (compensate desks down live previous gain).0
unfolding compensate
compensate-Books slack desks down live r previous gain e h =
    elim (Bool-cases (negligible (gain -ℤ previous))) [
      | inl small ↦
          rw (small, compensate)
            (rw e (
              All-imp _ _ live.followers (λ f k. drift-IsBalanced slack r previous gain f small k)
                h))
      | inr large ↦
          rw (large, compensate)
            (rw e (
              settle_list-Books slack (some r) (some gain) desks everyone down
                (map (owe (gain -ℤ previous)) live.followers)
                (owe-All slack r previous gain live.followers h)))
    ]

arm-Within : (slack : ℕ) (gain x : ℤ) → Within slack x → Within (slack + 99) (x +ℤ (gain -ℤ gain))
arm-Within slack gain x h = omega (arith, -ℤ_parts, +ℤ_parts)

arm-IsBalanced :
    (slack : ℕ) (gain : ℤ) (fs : List Follower)
    → All (λ f. Within slack (f.applied +ℤ f.owed)) fs
    → All (IsBalanced (slack + 99) gain gain) fs
arm-IsBalanced slack gain fs h =
    All-imp (λ f. Within slack (f.applied +ℤ f.owed)) _ fs
      (λ f k. arm-Within slack gain (f.applied +ℤ f.owed) k) h

observe_locked-IsLedger :
    (slack : ℕ) (desks : Desks) (down : List String) (live : Live) (gain : ℤ)
    (reference previous : Option ℤ)
    → live.reference ≡ reference
    → Books slack reference previous live.followers
    → IsLedger (slack + 99) (observe_locked desks down live gain (filtered previous reference)).0
unfolding observe_locked
observe_locked-IsLedger slack desks down live gain none previous e h =
    arm-IsBalanced slack gain live.followers h
observe_locked-IsLedger slack desks down live gain (some r) none e h = absurd h
observe_locked-IsLedger slack desks down live gain (some r) (some previous) e h =
    compensate-Books slack desks down live r previous gain e h

-- One observation of a locked signal leaves it on its books, up to one more epsilon.
pub observe_live-IsLedger :
    (slack : ℕ) (desks : Desks) (down : List String) (live : Live) (gain : ℤ)
    → IsLedger slack live
    → IsLedger (slack + 99) (observe_live desks true down live gain).0
unfolding observe_live
observe_live-IsLedger slack desks down live gain h =
    observe_locked-IsLedger slack desks down live gain live.reference live.gain refl h
