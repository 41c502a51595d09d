-- ===== src/Core/Law/Rounding.antt =====
-- Rounding to the nearest step, for law.rs.
use native.Mathlib.Nat.{mul-le-mul_right, div-add-mod', mod-lt, mul_left_comm, add-mul}
use dante_babel_box.Prelude.{ℕ, ◌+◌, ◌*◌, ◌/◌, ◌≤◌, ◌<◌, ◌≡◌, ◌⊎◌, inl, inr, arith}
use dante_babel_box.Core.Law.{nearest}

-- The multiples of a step keep the order, and different ones are a step apart.
pub apart :
    (q i s : ℕ) → (q ≡ i) ⊎ ((q < i) × (q * s + s ≤ i * s)) ⊎ ((i < q) × (i * s + s ≤ q * s))
apart q i s = by_order (order q i)
  where
    order : (q i : ℕ) → (q ≡ i) ⊎ (q < i) ⊎ (i < q)
    order q i = omega arith

    step_up : (q i : ℕ) → q < i → q * s + s ≤ i * s
    step_up q i h =
        omega (arith, mul-le-mul_right {m = q + 1} {n = i} s (omega arith), add-mul q 1 s)

    by_order :
        (q ≡ i) ⊎ (q < i) ⊎ (i < q)
        → (q ≡ i) ⊎ ((q < i) × (q * s + s ≤ i * s)) ⊎ ((i < q) × (i * s + s ≤ q * s))
    by_order (inl e) = inl e
    by_order (inr (inl h)) = inr (inl (h, step_up q i h))
    by_order (inr (inr h)) = inr (inr (h, step_up i q h))

module _ (x s : ℕ) (positive : 0 < s) where
  -- The nearest multiple is at most half a step away.
  pub nearest_near : (2 * (nearest x s * s) ≤ 2 * x + s) × (2 * x < 2 * (nearest x s * s) + s)
  unfolding nearest
  nearest_near =
      let q = (2 * x + s) / (2 * s) in
      let whole = div-add-mod' (2 * x + s) (2 * s) in
      let rest = mod-lt (2 * x + s) {m = 2 * s} (omega arith) in
      let twice = mul_left_comm q 2 s in
      (omega (arith, whole, rest, twice), omega (arith, whole, rest, twice))

  pub nearest_unique : (i : ℕ) → 2 * (i * s) ≤ 2 * x + s → 2 * x < 2 * (i * s) + s → nearest x s ≡ i
  nearest_unique i low high = by_apart (apart (nearest x s) i s)
    where
      by_apart :
          (nearest x s ≡ i)
            ⊎ ((nearest x s < i) × (nearest x s * s + s ≤ i * s))
            ⊎ ((i < nearest x s) × (i * s + s ≤ nearest x s * s))
          → nearest x s ≡ i
      by_apart (inl e) = e
      by_apart (inr (inl (h, k))) = absurd (omega (arith, nearest_near, k))
      by_apart (inr (inr (h, k))) = absurd (omega (arith, nearest_near, k))

  pub nearest_le : (n : ℕ) → x ≤ n * s → nearest x s ≤ n
  nearest_le n bound = by_apart (apart (nearest x s) n s)
    where
      by_apart :
          (nearest x s ≡ n)
            ⊎ ((nearest x s < n) × (nearest x s * s + s ≤ n * s))
            ⊎ ((n < nearest x s) × (n * s + s ≤ nearest x s * s))
          → nearest x s ≤ n
      by_apart (inl e) = omega (arith, e)
      by_apart (inr (inl (h, _))) = omega (arith, h)
      by_apart (inr (inr (h, k))) = absurd (omega (arith, nearest_near, k))
