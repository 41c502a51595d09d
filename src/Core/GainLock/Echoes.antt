-- ===== src/Core/GainLock/Echoes.antt =====
-- `Live::expect` and `Live::is_expected` of gain_lock.rs: which reports of the leader are echoes.
use dante_babel_box.Prelude.{
  ℕ, ◌-◌, ◌<◌, ◌≤◌, Bool, true, false, List, [], ◌∷◌, ◌++◌, ◌≡◌, refl, arith, ltb, All,
  if◌then◌else◌, some, Bool-cases, Option-cases, inl, inr,
}
use dante_babel_box.Prelude.Int.{ℤ, pos, ◌-ℤ◌, -ℤ_parts, eq_of_parts}
use dante_babel_box.Core.GainLock.{
  Live, expect, is_expected, retain_recent, after_echo, negligible, echo_ttl,
}

-- The entry is no older than the time to live.
abbrev pub IsRecent : ℕ → ℤ × ℕ → Type 0
IsRecent now entry = now - entry.1 < echo_ttl

retain_recent_last :
    (now at : ℕ) (gain : ℤ) (es : List (ℤ × ℕ))
    → IsRecent now (gain, at)
    → retain_recent now (es ++ (gain, at) ∷ []) ≡ retain_recent now es ++ (gain, at) ∷ []
unfolding retain_recent
retain_recent_last now at gain [] r = ground (arith, r)
retain_recent_last now at gain ((v, t) ∷ es) r =
    rw (retain_recent_last now at gain es r) (keep (ltb (now - t) echo_ttl))
  where
    keep :
        (recent : Bool)
        → (if recent
            then (v, t) ∷ retain_recent now es ++ (gain, at) ∷ []
            else retain_recent now es ++ (gain, at) ∷ [])
          ≡ (if recent then (v, t) ∷ retain_recent now es else retain_recent now es)
            ++ (gain, at) ∷ []
    keep true = refl
    keep false = refl

-- An entry for the gain itself is found, at the latest at the end.
abbrev Finds : ℤ → List (ℤ × ℕ) → Type 0
Finds gain es = (rest : List (ℤ × ℕ)) × (after_echo gain es ≡ some rest)

after_echo_last : (gain : ℤ) (at : ℕ) (es : List (ℤ × ℕ)) → Finds gain (es ++ (gain, at) ∷ [])
unfolding after_echo
after_echo_last gain at [] =
    let same : gain -ℤ gain ≡ pos 0 = omega (arith, -ℤ_parts, eq_of_parts) in ([], simp same refl)
after_echo_last gain at ((v, t) ∷ es) = elim (Bool-cases (negligible (v -ℤ gain))) [
  | inl near ↦ (es ++ (gain, at) ∷ [], simp near refl)
  | inr far ↦ let found = after_echo_last gain at es in (found.0, simp far found.1)
]

-- A value the engine caused itself is an echo when the next report, less than two seconds later,
-- is that value, whatever else is expected.
pub is_expected-expect :
    (caused now : ℕ) (gain : ℤ) (live : Live)
    → now - caused < echo_ttl
    → (is_expected now gain (expect caused gain live)).1 ≡ true
unfolding is_expected expect
is_expected-expect caused now gain live r =
    let found = after_echo_last gain caused (retain_recent now live.expected) in
    rw (retain_recent_last now caused gain live.expected r, found.1, is_expected) refl

-- A report that is no echo clears the list, so that no report is taken for an echo again until the
-- engine causes another value.
pub is_expected_cleared :
    (now later : ℕ) (gain gain' : ℤ) (live : Live)
    → (is_expected now gain live).1 ≡ false
    → ((is_expected now gain live).0.expected ≡ [])
      × ((is_expected later gain' (is_expected now gain live).0).1 ≡ false)
unfolding is_expected
is_expected_cleared now later gain gain' live missed =
    elim (Option-cases (after_echo gain (retain_recent now live.expected))) [
      | inl e ↦ rw (e, is_expected) (refl, refl)
      | inr (rest, e) ↦ absurd (clash rest e missed)
    ]
  where
    clash :
        (rest : List (ℤ × ℕ))
        → after_echo gain (retain_recent now live.expected) ≡ some rest
        → (is_expected now gain live).1 ≡ false
        → ⊥
    clash rest e missed = grind arith

retain_recent_expired :
    (now : ℕ) (es : List (ℤ × ℕ)) → All (λ e. echo_ttl ≤ now - e.1) es → retain_recent now es ≡ []
unfolding retain_recent
retain_recent_expired now [] h = refl
retain_recent_expired now ((v, at) ∷ es) h =
    let rest = retain_recent_expired now es h.1 in ground (arith, rest, h.0)

-- When all that was expected has expired, no report is swallowed.
pub is_expected_expired :
    (now : ℕ) (gain : ℤ) (live : Live)
    → All (λ e. echo_ttl ≤ now - e.1) live.expected
    → (is_expected now gain live).1 ≡ false
unfolding is_expected
is_expected_expired now gain live h =
    rw (retain_recent_expired now live.expected h, is_expected, after_echo) refl
