-- ===== src/Core/Law/Tests.antt =====
-- law.rs at the inputs of its own tests.
use dante_babel_box.Prelude.{◌*◌, ◌≤◌, none, some, [], ◌≡◌, refl, arith, ok}
use dante_babel_box.Prelude.Int.{pos, negsuc, ◌+ℤ◌, ◌-ℤ◌, ◌*ℤ◌, ◌≤ℤ◌, abs}
use dante_babel_box.Core.ChannelScheme.{descriptors_for_channels}
use dante_babel_box.Core.GainLock.{Follower, Desks}
use dante_babel_box.Core.GainLock.Settle.{settle_one, is_down}
use dante_babel_box.Core.Law.{DbLaw, quantize, nudge, moves, index, value_at, clamp, nearest}
use dante_babel_box.Core.Law.Nudges.{IsGrid, nudge_exact, nudge_still}
use dante_babel_box.Core.Law.Followers.{MovesBy, settle_one_near}

-- `TRIM_LAW` of crates/preamp-adapter-osc/src/x32.rs: -18 to 18 dB in quarters.
abbrev x32_trim : DbLaw
x32_trim = record { min_db = negsuc 17999999; max_db = pos 18000000; step_db = 250000 }

x32_trim-IsGrid : IsGrid x32_trim
unfolding ◌+ℤ◌
x32_trim-IsGrid = record { positive = omega arith; steps = 144; reaches = refl }

-- -0.433 dB rounds to the nearest point, and a move at the limit is cut short.
nudge_rounds : nudge x32_trim (pos 0) (negsuc 432999) ≡ (negsuc 499999, negsuc 499999)
unfolding nudge index value_at clamp nearest ◌+ℤ◌ ◌-ℤ◌ ◌*ℤ◌
nudge_rounds = refl

nudge_limit : nudge x32_trim (pos 17000000) (pos 3000000) ≡ (pos 18000000, pos 1000000)
unfolding nudge index value_at clamp nearest ◌+ℤ◌ ◌-ℤ◌ ◌*ℤ◌
nudge_limit = refl

nudge_exact_example :
    (negsuc 17999999 ≤ℤ (nudge x32_trim (pos 17000000) (pos 3000000)).0)
    × ((nudge x32_trim (pos 17000000) (pos 3000000)).0 ≤ℤ pos 18000000)
    × (quantize x32_trim (pos 17000000) +ℤ (nudge x32_trim (pos 17000000) (pos 3000000)).1
        ≡ (nudge x32_trim (pos 17000000) (pos 3000000)).0)
nudge_exact_example = nudge_exact x32_trim x32_trim-IsGrid (pos 17000000) (pos 3000000)

nudge_still_example :
    nudge x32_trim (pos 1000000) (pos 100000) ≡ (quantize x32_trim (pos 1000000), pos 0)
unfolding moves
nudge_still_example = nudge_still x32_trim x32_trim-IsGrid (pos 1000000) (pos 100000) refl

-- Desks whose trims stand at 0 dB.
abbrev at_zero : Desks
at_zero = record {
  describe = λ device. some (descriptors_for_channels 2);
  nudge = λ device ono delta. ok (nudge x32_trim (pos 0) delta).1;
  read = λ device ono. ok (pos 30000000);
  write = λ device ono gain. ok _;
}

-- A follower that owes 3.1 dB.
abbrev owing : Follower
owing = record {
  device = "monitors";
  input = 1;
  ono = some 9;
  applied = pos 0;
  owed = negsuc 3099999;
  error = none;
}

owing-MovesBy : MovesBy x32_trim (pos 0) at_zero [] owing
owing-MovesBy = record {
  ono = 9;
  descriptors = descriptors_for_channels 2;
  found = refl;
  connected = refl;
  up = unfold is_down in refl;
  answers = λ move. refl;
}

settle_one_near_example :
    (2 * abs (settle_one at_zero [] owing).0.owed ≤ 250000)
    × ((settle_one at_zero [] owing).0.applied -ℤ pos 0
        ≡ (nudge x32_trim (pos 0) (negsuc 3099999)).0 -ℤ quantize x32_trim (pos 0))
    × ((settle_one at_zero [] owing).0.error ≡ none)
unfolding quantize index value_at clamp nearest ◌+ℤ◌ ◌-ℤ◌
settle_one_near_example =
    settle_one_near x32_trim x32_trim-IsGrid (pos 0) at_zero [] owing owing-MovesBy refl
      (omega arith) (omega arith)
