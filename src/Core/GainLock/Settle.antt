-- ===== src/Core/GainLock/Settle.antt =====
-- `settle` and `observe` of gain_lock.rs. The moves run in parallel, each on a follower of its own,
-- and all are chosen by the desks known to be down beforehand, so they are taken one by one here.
use dante_babel_box.Prelude.{
  String, Bool, true, false, ◌||◌, Option, none, some, List, [], ◌∷◌, str_eq, if◌then◌else◌, Result,
  ok, err, map,
}
use dante_babel_box.Prelude.Int.{ℤ, pos, ◌+ℤ◌, ◌-ℤ◌}
use dante_babel_box.Oca.{Ono, OcaObjectDescriptor}
use dante_babel_box.Core.GainLock.{Problem, Follower, Live, Desks, negligible}

-- `HashSet<String>`: membership and insertion.
unfoldable pub is_down : List String → String → Bool
is_down [] device = false
is_down (d ∷ ds) device = str_eq d device || is_down ds device

unfoldable pub mark_down : List String → List String → List String
unfolding is_down
mark_down down [] = down
mark_down down (d ∷ ds) = mark_down (if is_down down d then down else d ∷ down) ds

-- The booking of a move that the desk took: what is left under epsilon is let go.
unfoldable pub book : Follower → ℤ → Follower
book f applied =
    let left = f.owed -ℤ applied in
    record f {
      applied = f.applied +ℤ applied;
      owed = if negligible left then pos 0 else left;
      error = none;
    }

-- The result of the move, and whether its desk has to be marked as down.
unfoldable pub settle_move : Follower → Result String ℤ → Follower × Bool
unfolding book
settle_move f (ok applied) = (book f applied, false)
settle_move f (err e) = (record f { error = some (Problem.failed e) }, true)

-- A follower on a desk that is down is left accruing; an error that it has is kept.
unfoldable pub hold_with : Follower → Option Problem → Follower
hold_with f none = record f { error = some Problem.not_answering }
hold_with f (some e) = f

unfoldable pub hold : Follower → Follower
unfolding hold_with
hold f = hold_with f f.error

unfoldable pub settle_device :
    Follower → Option (List OcaObjectDescriptor) → Result String ℤ → Follower × Bool
unfolding settle_move
settle_device f none answer = (record f { error = some Problem.not_connected }, false)
settle_device f (some descriptors) answer = settle_move f answer

unfoldable pub settle_ono : Desks → Follower → Option Ono → Follower × Bool
unfolding settle_device
settle_ono desks f none = (f, false)
settle_ono desks f (some ono) =
    settle_device f (desks.describe f.device) (desks.nudge f.device ono f.owed)

unfoldable pub settle_one : Desks → List String → Follower → Follower × Bool
unfolding hold settle_ono is_down
settle_one desks down f =
    if negligible f.owed
    then (f, false)
    else if is_down down f.device
    then (hold f, false)
    else settle_ono desks f f.ono

-- The followers that `chosen` picks are settled; the second part lists the desks that failed.
unfoldable pub settle_list :
    Desks → (Follower → Bool) → List String → List Follower → List Follower × List String
unfolding settle_one
settle_list desks chosen down [] = ([], [])
settle_list desks chosen down (f ∷ fs) =
    let (fs', failed) = settle_list desks chosen down fs in
    let (f', bad) = settle_one desks down f in
    if chosen f
    then (if bad then (f' ∷ fs', f.device ∷ failed) else (f' ∷ fs', failed))
    else (f ∷ fs', failed)

abbrev pub everyone : Follower → Bool
everyone f = true

-- `follower.owed -= delta`
abbrev pub owe : ℤ → Follower → Follower
owe delta f = record f { owed = f.owed -ℤ delta }

-- The part of `observe` for a signal that has a reference.
unfoldable pub compensate : Desks → List String → Live → ℤ → ℤ → Live × List String
unfolding settle_list
compensate desks down live previous gain =
    let delta = gain -ℤ previous in
    let (followers, failed) = settle_list desks everyone down (map (owe delta) live.followers) in
    if negligible delta
    then (record live { gain = some gain }, [])
    else (record live { gain = some gain; followers = followers }, failed)

-- `previous.filter(|_| live.reference.is_some())`
abbrev pub filtered : Option ℤ → Option ℤ → Option ℤ
filtered previous none = none
filtered previous (some reference) = previous

-- `observe` while locked: without a reading since the lock, this report is the reference.
unfoldable pub observe_locked : Desks → List String → Live → ℤ → Option ℤ → Live × List String
unfolding compensate
observe_locked desks down live gain none =
    (record live { gain = some gain; reference = some gain; problem = none }, [])
observe_locked desks down live gain (some previous) = compensate desks down live previous gain

-- `observe` on its signal: the live entry afterwards, and the desks that failed.
unfoldable pub observe_live : Desks → Bool → List String → Live → ℤ → Live × List String
unfolding observe_locked
observe_live desks locked down live gain =
    if locked
    then observe_locked desks down live gain (filtered live.gain live.reference)
    else (record live { gain = some gain }, [])
