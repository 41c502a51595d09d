-- ===== src/Core/Law.antt =====
-- crates/core/src/law.rs: a control that holds dB values on a grid. Decibels are whole millionths,
-- so that steps are exact.
pub mod Rounding
pub mod Nudges
pub mod Followers
mod Tests
use dante_babel_box.Prelude.{ℕ, ◌+◌, ◌*◌, ◌/◌, Bool, ltb, leb, if◌then◌else◌}
use dante_babel_box.Prelude.Int.{ℤ, pos, pos_part, ◌+ℤ◌, ◌-ℤ◌, ◌*ℤ◌, ltb_ℤ, sub_ℕ, abs}

pub record DbLaw : Type 0 where
  pub min_db : ℤ
  pub max_db : ℤ
  pub step_db : ℕ

-- `db.clamp(self.min_db, self.max_db)`
unfoldable pub clamp : DbLaw → ℤ → ℤ
clamp law db =
    if ltb_ℤ db law.min_db then law.min_db else if ltb_ℤ law.max_db db then law.max_db else db

-- `(x / step).round()` of a number that is not negative: half a step rounds up.
unfoldable pub nearest : ℕ → ℕ → ℕ
nearest x step = (2 * x + step) / (2 * step)

unfoldable pub index : DbLaw → ℤ → ℕ
unfolding clamp nearest
index law db = nearest (pos_part (clamp law db -ℤ law.min_db)) law.step_db

-- `at`
unfoldable pub value_at : DbLaw → ℕ → ℤ
unfolding clamp
value_at law i = clamp law (law.min_db +ℤ pos (i * law.step_db))

unfoldable pub quantize : DbLaw → ℤ → ℤ
unfolding index value_at
quantize law db = value_at law (index law db)

unfoldable pub nudge : DbLaw → ℤ → ℤ → ℤ × ℤ
unfolding index value_at
nudge law current_db delta_db =
    let current = index law current_db in
    let target = index law (value_at law current +ℤ delta_db) in
    (value_at law target, sub_ℕ target current *ℤ pos law.step_db)

unfoldable pub moves : DbLaw → ℤ → Bool
moves law delta_db = leb law.step_db (2 * abs delta_db)
