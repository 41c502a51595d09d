-- ===== src/Core/Law/Nudges.antt =====
-- `nudge` of law.rs on a grid that reaches from the lowest to the highest value.
use native.Mathlib.Nat.{mul-le-mul_right, add-mul}
use dante_babel_box.Prelude.{ℕ, ◌+◌, ◌*◌, ◌≤◌, ◌<◌, ◌≡◌, ◌⊎◌, inl, inr, refl, ap, arith, false}
use dante_babel_box.Prelude.Int.{
  ℤ, pos, negsuc, pos_part, neg_part, ◌+ℤ◌, ◌-ℤ◌, ◌*ℤ◌, ◌≤ℤ◌, sub_ℕ, abs, int_laws, eq_of_parts,
}
use dante_babel_box.Core.Law.{DbLaw, clamp, index, value_at, quantize, nudge, moves}
use dante_babel_box.Core.Law.Rounding.{nearest_near, nearest_unique, nearest_le}

-- The highest value is a whole number of steps above the lowest.
pub record IsGrid (law : DbLaw) : Type 0 where
  pub positive : 0 < law.step_db
  pub steps : ℕ
  pub reaches : law.max_db ≡ law.min_db +ℤ pos (steps * law.step_db)

-- One of the parts of an integer is 0.
one_sided : (a : ℤ) → (pos_part a ≡ 0) ⊎ (neg_part a ≡ 0)
one_sided (pos n) = inr refl
one_sided (negsuc n) = inl refl

times_parts :
    (a : ℤ) (s : ℕ)
    → pos_part (a *ℤ pos s) + neg_part a * s ≡ neg_part (a *ℤ pos s) + pos_part a * s
unfolding ◌*ℤ◌
times_parts (pos n) s = ground arith
times_parts (negsuc n) s = ground arith

-- A number of steps moves by that many steps, up or down.
steps_apart :
    (t c s : ℕ) → pos_part (sub_ℕ t c *ℤ pos s) + c * s ≡ neg_part (sub_ℕ t c *ℤ pos s) + t * s
steps_apart t c s = scaled (sub_ℕ t c) (ground arith)
  where
    scaled :
        (a : ℤ)
        → pos_part a + c ≡ neg_part a + t
        → pos_part (a *ℤ pos s) + c * s ≡ neg_part (a *ℤ pos s) + t * s
    scaled a e = omega (
      arith,
      times_parts a s,
      add-mul (pos_part a) c s,
      add-mul (neg_part a) t s,
      ap (λ (k : ℕ). k * s) e,
    )

module _ (law : DbLaw) (grid : IsGrid law) where
  open law use {min_db, max_db, step_db}
  open grid use {positive, steps, reaches}

  -- How far above the lowest value a value is, when it is brought into the range.
  offset : ℤ → ℕ
  offset db = pos_part (clamp law db -ℤ min_db)

  span : ℕ
  span = steps * step_db

  reaches_parts : pos_part max_db + neg_part min_db ≡ pos_part min_db + neg_part max_db + span
  unfolding span
  reaches_parts = omega (int_laws, ap pos_part reaches, ap neg_part reaches)

  ordered : min_db ≤ℤ max_db
  ordered = omega (arith, reaches_parts)

  clamp_range : (db : ℤ) → (min_db ≤ℤ clamp law db) × (clamp law db ≤ℤ max_db)
  unfolding clamp
  clamp_range db = ground (arith, ordered)

  clamp_inside : (db : ℤ) → min_db ≤ℤ db → db ≤ℤ max_db → clamp law db ≡ db
  unfolding clamp
  clamp_inside db low high = ground arith

  offset_parts :
      (db : ℤ)
      → (pos_part (clamp law db) + neg_part min_db
          ≡ pos_part min_db + neg_part (clamp law db) + offset db)
        × (offset db ≤ span)
  unfolding offset
  offset_parts db =
      let range = clamp_range db in
      let side = one_sided (clamp law db -ℤ min_db) in
      let high = reaches_parts in
      (omega (int_laws, range, side), omega (int_laws, range, side, high))

  index_le : (db : ℤ) → index law db ≤ steps
  unfolding index
  index_le db =
      nearest_le (pos_part (clamp law db -ℤ min_db)) step_db positive steps
        (unfold offset span in (offset_parts db).1)

  value_at_parts :
      (i : ℕ)
      → i ≤ steps
      → pos_part (value_at law i) + neg_part min_db
        ≡ pos_part min_db + neg_part (value_at law i) + i * step_db
  unfolding value_at
  value_at_parts i h = at_value (law.min_db +ℤ pos (i * step_db)) refl
    where
      within : i * step_db ≤ span
      within = unfold span in mul-le-mul_right step_db h

      at_value :
          (v : ℤ)
          → min_db +ℤ pos (i * step_db) ≡ v
          → pos_part (clamp law (min_db +ℤ pos (i * step_db))) + neg_part min_db
            ≡ pos_part min_db + neg_part (clamp law (min_db +ℤ pos (i * step_db))) + i * step_db
      at_value v e =
          rw
            (clamp_inside (min_db +ℤ pos (i * step_db)) (omega int_laws)
              (omega (int_laws, within, reaches_parts)))
            (omega int_laws)

  -- A nudge ends in the range, and the change that it names is the one the control makes.
  pub nudge_exact :
      (current_db delta_db : ℤ)
      → (min_db ≤ℤ (nudge law current_db delta_db).0)
        × ((nudge law current_db delta_db).0 ≤ℤ max_db)
        × (quantize law current_db +ℤ (nudge law current_db delta_db).1
            ≡ (nudge law current_db delta_db).0)
  unfolding nudge quantize
  nudge_exact current_db delta_db =
      landed (index law current_db) (index law (value_at law (index law current_db) +ℤ delta_db))
        (index_le current_db) (index_le (value_at law (index law current_db) +ℤ delta_db))
    where
      landed :
          (c t : ℕ)
          → c ≤ steps
          → t ≤ steps
          → (min_db ≤ℤ value_at law t)
            × (value_at law t ≤ℤ max_db)
            × (value_at law c +ℤ sub_ℕ t c *ℤ pos step_db ≡ value_at law t)
      landed c t h k =
          let target = value_at_parts t k in
          let current = value_at_parts c h in
          let moved = steps_apart t c step_db in
          (
            omega (arith, target),
            omega (arith, target, reaches_parts, within t k),
            eq_of_parts _ _ (omega (int_laws, target, current, moved)),
          )
        where
          within : (t : ℕ) → t ≤ steps → t * step_db ≤ span
          within t k = unfold span in mul-le-mul_right step_db k

  clamp_cases :
      (v : ℤ)
      → ((v ≤ℤ min_db) × (clamp law v ≡ min_db))
        ⊎ ((max_db ≤ℤ v) × (clamp law v ≡ max_db))
        ⊎ (clamp law v ≡ v)
  unfolding clamp
  clamp_cases v = ground (arith, ordered)

  index_near :
      (v : ℤ)
      → (2 * (index law v * step_db) ≤ 2 * offset v + step_db)
        × (2 * offset v < 2 * (index law v * step_db) + step_db)
  unfolding index offset
  index_near v = nearest_near (pos_part (clamp law v -ℤ min_db)) step_db positive

  index_unique :
      (v : ℤ) (i : ℕ)
      → 2 * (i * step_db) ≤ 2 * offset v + step_db
      → 2 * offset v < 2 * (i * step_db) + step_db
      → index law v ≡ i
  unfolding index offset
  index_unique v i low high =
      nearest_unique (pos_part (clamp law v -ℤ min_db)) step_db positive i low high

  lands_near :
      (v : ℤ) → min_db ≤ℤ v → v ≤ℤ max_db → 2 * abs (v -ℤ value_at law (index law v)) ≤ step_db
  lands_near v low high =
      let inside = clamp_inside v low high in
      omega (
        int_laws,
        index_near v,
        value_at_parts (index law v) (index_le v),
        offset_parts v,
        one_sided (v -ℤ value_at law (index law v)),
        ap pos_part inside,
        ap neg_part inside,
      )

  -- A nudge that stays in the range lands at most half a step from where it was asked to.
  pub nudge_near :
      (current_db delta_db : ℤ)
      → min_db ≤ℤ quantize law current_db +ℤ delta_db
      → quantize law current_db +ℤ delta_db ≤ℤ max_db
      → 2 * abs (quantize law current_db +ℤ delta_db -ℤ (nudge law current_db delta_db).0) ≤ step_db
  unfolding nudge quantize
  nudge_near current_db delta_db low high =
      lands_near (value_at law (index law current_db) +ℤ delta_db) low high

  index_still :
      (c : ℕ) (delta : ℤ)
      → c ≤ steps
      → 2 * abs delta < step_db
      → index law (value_at law c +ℤ delta) ≡ c
  index_still c delta h little =
      index_unique (value_at law c +ℤ delta) c (low (clamp_cases v)) (high (clamp_cases v))
    where
      v : ℤ
      v = value_at law c +ℤ delta

      within : c * step_db ≤ span
      within = unfold span in mul-le-mul_right step_db h

      low :
          ((v ≤ℤ min_db) × (clamp law v ≡ min_db))
            ⊎ ((max_db ≤ℤ v) × (clamp law v ≡ max_db))
            ⊎ (clamp law v ≡ v)
          → 2 * (c * step_db) ≤ 2 * offset v + step_db
      low (inl (o, e)) = omega (
        int_laws,
        value_at_parts c h,
        offset_parts v,
        ap pos_part e,
        ap neg_part e,
        reaches_parts,
      )
      low (inr (inl (o, e))) = omega (
        int_laws,
        value_at_parts c h,
        offset_parts v,
        ap pos_part e,
        ap neg_part e,
        reaches_parts,
        within,
      )
      low (inr (inr e)) =
          omega (int_laws, value_at_parts c h, offset_parts v, ap pos_part e, ap neg_part e)

      high :
          ((v ≤ℤ min_db) × (clamp law v ≡ min_db))
            ⊎ ((max_db ≤ℤ v) × (clamp law v ≡ max_db))
            ⊎ (clamp law v ≡ v)
          → 2 * offset v < 2 * (c * step_db) + step_db
      high (inl (o, e)) = omega (
        int_laws,
        value_at_parts c h,
        offset_parts v,
        ap pos_part e,
        ap neg_part e,
        reaches_parts,
      )
      high (inr (inl (o, e))) = omega (
        int_laws,
        value_at_parts c h,
        offset_parts v,
        ap pos_part e,
        ap neg_part e,
        reaches_parts,
        within,
      )
      high (inr (inr e)) =
          omega (int_laws, value_at_parts c h, offset_parts v, ap pos_part e, ap neg_part e)

  -- A nudge that `moves` says is too small leaves the control where it is, and says so.
  pub nudge_still :
      (current_db delta_db : ℤ)
      → moves law delta_db ≡ false
      → nudge law current_db delta_db ≡ (quantize law current_db, pos 0)
  unfolding nudge quantize moves
  nudge_still current_db delta_db small =
      rw
        (
          index_still (index law current_db) delta_db (index_le current_db) (ground arith),
          no_steps (index law current_db),
        )
        refl
    where
      no_steps : (c : ℕ) → sub_ℕ c c *ℤ pos step_db ≡ pos 0
      no_steps c = eq_of_parts _ _ (omega (arith, steps_apart c c step_db))
