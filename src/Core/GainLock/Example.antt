-- ===== src/Core/GainLock/Example.antt =====
-- Theorems on gain_lock.rs at concrete inputs: a console leads, a monitor desk follows.
use dante_babel_box.Prelude.{
  ◌*◌, String, true, false, none, some, List, [], ◌∷◌, ◌≡◌, refl, arith, All, ◌↔◌, ok, err,
}
use dante_babel_box.Prelude.Int.{pos, negsuc, ◌-ℤ◌}
use dante_babel_box.Core.ChannelScheme.{descriptors_for_channels}
use dante_babel_box.Core.GainLock.{
  Signal, GainLockConfig, Follower, Live, Inner, Desks, expect, is_expected, negligible,
}
use dante_babel_box.Core.GainLock.Settle.{settle_one, observe_live, is_down}
use dante_babel_box.Core.GainLock.Resolve.{preamp_on, resolve_signal}
use dante_babel_box.Core.GainLock.Engine.{new, lock}
use dante_babel_box.Core.GainLock.Listening.{retry_failed}
use dante_babel_box.Core.GainLock.Probes.{followers_of, IsFirst}
use dante_babel_box.Core.GainLock.Comebacks.{Retried}
use dante_babel_box.Core.GainLock.Moves.{
  TakesAll, Compensated, leader_move, IsKept, settle_one-IsKept,
}
use dante_babel_box.Core.GainLock.Echoes.{is_expected-expect}
use dante_babel_box.Core.GainLock.Locking.{IsFresh, lock-IsFresh, HasPreamp, election_inherits}
use dante_babel_box.Core.GainLock.Config.{validate}
use dante_babel_box.Core.GainLock.Config.Soundness.{IsSound, validate_exact}
use dante_babel_box.Core.GainLock.Retries.{retry_by_first}
use dante_babel_box.Core.GainLock.Steps.{IsOnBooks}
use dante_babel_box.Core.GainLock.Runs.{Action, perform_all, observations_all, ledger_kept}

-- Every desk has two preamps; reads are at 30 dB, and every move is taken in full.
abbrev willing : Desks
willing = record {
  describe = λ device. some (descriptors_for_channels 2);
  nudge = λ device ono delta. ok delta;
  read = λ device ono. ok (pos 30000000);
  write = λ device ono gain. ok _;
}

-- The same desks, of which none answers.
abbrev silent : Desks
silent = record {
  describe = λ device. some (descriptors_for_channels 2);
  nudge = λ device ono delta. err "timed out";
  read = λ device ono. err "timed out";
  write = λ device ono gain. err "timed out";
}

abbrev vocal : Signal
vocal = record {
  name = "vocal";
  members =
      record { device = "foh"; preamp = some 1; input = some 1 }
      ∷ record { device = "monitors"; preamp = some 1; input = some 1 }
      ∷ [];
}

abbrev stage : Inner
stage =
    new willing
      (record { leader = "foh"; signals = vocal ∷ []; poll_ms = none; lock_on_start = false })

abbrev show : List Action
show =
    Action.poll willing 100
    ∷ Action.set willing 200 "vocal" (pos 33000000)
    ∷ Action.nudge silent 300 "vocal" (pos 1000000)
    ∷ Action.retry willing
    ∷ []

ledger_kept_example :
    IsOnBooks
      (99 * observations_all (lock willing 0 stage) show)
      (perform_all (lock willing 0 stage) show)
ledger_kept_example = ledger_kept willing 0 stage show

-- A follower that owes 3 dB.
abbrev owing : Follower
owing = record {
  device = "monitors";
  input = 1;
  ono = some 9;
  applied = pos 0;
  owed = negsuc 2999999;
  error = none;
}

abbrev armed : Live
armed = record {
  name = "vocal";
  leader_preamp = some 1;
  leader_ono = some 0;
  gain = some (pos 30000000);
  reference = some (pos 30000000);
  problem = none;
  followers = owing ∷ [];
  expected = [];
}

owing-TakesAll : TakesAll willing [] owing
owing-TakesAll = record {
  ono = 9;
  descriptors = descriptors_for_channels 2;
  found = refl;
  connected = refl;
  up = unfold is_down in refl;
  takes = λ move. refl;
}

leader_move_example :
    Compensated
      (pos 33000000 -ℤ pos 30000000)
      (owing ∷ [])
      (observe_live willing true [] armed (pos 33000000)).0.followers
    × ((observe_live willing true [] armed (pos 33000000)).0.gain ≡ some (pos 33000000))
    × ((observe_live willing true [] armed (pos 33000000)).0.reference ≡ some (pos 30000000))
unfolding ◌-ℤ◌
leader_move_example =
    leader_move willing [] armed (pos 30000000) (pos 30000000) (pos 33000000) refl refl refl
      (owing-TakesAll, tt)

settle_one-IsKept_example :
    IsKept owing (settle_one silent [] owing)
    × (negligible owing.owed ≡ false)
    × (is_down [] owing.device ≡ false)
unfolding settle_one is_down
settle_one-IsKept_example = settle_one-IsKept silent [] owing refl

is_expected-expect_example :
    (is_expected 1500 (pos 33000000) (expect 1000 (pos 33000000) armed)).1 ≡ true
is_expected-expect_example = is_expected-expect 1000 1500 (pos 33000000) armed (omega arith)

lock-IsFresh_example :
    ((lock silent 0 stage).locked ≡ true)
    × ((lock silent 0 stage).leader ≡ stage.leader)
    × ((lock silent 0 stage).signals ≡ stage.signals)
    × ((lock silent 0 stage).down ≡ [])
    × All IsFresh (lock silent 0 stage).live
lock-IsFresh_example = lock-IsFresh silent 0 stage

willing-HasPreamp : (device : String) → HasPreamp willing device 2 1
willing-HasPreamp device = record {
  described = refl;
  first = omega arith;
  last = omega arith;
  small = omega arith;
}

election_inherits_example :
    (resolve_signal willing "monitors"
      (record (resolve_signal willing "foh" [] vocal) { gain = some (pos 30000000) } ∷ [])
      vocal).gain
    ≡ some (pos 30000000)
unfolding preamp_on
election_inherits_example =
    election_inherits willing "foh" "monitors" [] vocal 1 2 2 (pos 30000000) refl refl
      (willing-HasPreamp "foh") (willing-HasPreamp "monitors")

-- A desk whose first follower has no trim object, while the second one could move.
abbrev stuck : Inner
stuck = record {
  leader = "foh";
  locked = true;
  signals = [];
  live = record armed { followers = record owing { ono = none } ∷ owing ∷ [] } ∷ [];
  down = "monitors" ∷ [];
}

stuck-IsFirst : IsFirst "monitors" stuck.live (record owing { ono = none })
stuck-IsFirst = record { before = []; after = owing ∷ []; split = refl; others = tt; same = refl }

retry_by_first_example :
    (is_down (retry_failed willing stuck).down "monitors" ≡ true)
    × Retried "monitors" false
        (followers_of stuck.live)
        (followers_of (retry_failed willing stuck).live)
retry_by_first_example =
    retry_by_first willing stuck "monitors" (record owing { ono = none }) refl
      (unfold is_down in refl) stuck-IsFirst (λ e. cc)

-- The same desk with an object for its first follower, which comes back.
abbrev away : Inner
away = record stuck { live = armed ∷ [] }

away_back :
    (is_down (retry_failed willing away).down "monitors" ≡ false)
    × Retried "monitors" true
        (followers_of away.live)
        (followers_of (retry_failed willing away).live)
away_back =
    retry_by_first willing away "monitors" owing refl (unfold is_down in refl)
      (record { before = []; after = []; split = refl; others = tt; same = refl })
      (λ e. record {
        descriptors = descriptors_for_channels 2;
        connected = refl;
        takes = λ ono move. refl;
      })

abbrev table : GainLockConfig
table = record { leader = "foh"; signals = vocal ∷ []; poll_ms = none; lock_on_start = true }

validate_exact_example : (validate (λ device. true) table ≡ ok tt) ↔ IsSound (λ device. true) table
validate_exact_example = validate_exact (λ device. true) table
