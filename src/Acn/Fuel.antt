-- ===== src/Acn/Fuel.antt =====
-- The loop of `walk_pdus` of acn.rs ends: each round consumes at least two octets.
use dante_babel_box.Prelude.{
  ℕ, zero, suc, ◌+◌, ◌≤◌, true, Option, none, some, List, [], ◌∷◌, ◌≡◌, refl, sym, ap, arith,
  length, drop, ltb, if◌then◌else◌, length-drop, Option-cases, Bool-cases, inl, inr,
}
use dante_babel_box.Acn.{Pdu, length_at, pdu_at, next_pdu, advance, walk_once, walk}

length_at_two :
    (buf : List ℕ) (len header_octets : ℕ)
    → length_at buf ≡ some (len, header_octets)
    → 2 ≤ header_octets
unfolding length_at
length_at_two buf len header_octets h = ground arith

advance-drop :
    (len : ℕ) (buf : List ℕ) (found : Option Pdu) (pdu : Pdu) (rest : List ℕ)
    → advance len buf found ≡ some (pdu, rest)
    → (found ≡ some pdu) × (drop len buf ≡ rest)
unfolding advance
advance-drop len buf none pdu rest h = grind arith
advance-drop len buf (some p) pdu rest h = ground arith

pdu_at_fits :
    (vector_len header_len : ℕ) (last_vector last_header buf : List ℕ) (len header_octets : ℕ)
    (pdu : Pdu)
    → pdu_at vector_len header_len last_vector last_header buf len header_octets ≡ some pdu
    → (header_octets ≤ len) × (len ≤ length buf)
unfolding pdu_at
pdu_at_fits vector_len header_len last_vector last_header buf len header_octets pdu h = ground arith

none_not_some :
    (pdu : Pdu) (rest : List ℕ) (r : Option (Pdu × List ℕ)) → r ≡ some (pdu, rest) → r ≡ none → ⊥
none_not_some pdu rest r h k = grind arith

walk_once_shorter :
    (vector_len header_len : ℕ) (last_vector last_header buf : List ℕ) (pdu : Pdu) (rest : List ℕ)
    → walk_once vector_len header_len last_vector last_header buf ≡ some (pdu, rest)
    → length rest + 2 ≤ length buf
unfolding walk_once
walk_once_shorter vector_len header_len last_vector last_header buf pdu rest h =
    elim (Bool-cases (ltb (length buf) 2)) [
      | inl short ↦ absurd (stuck short)
      | inr long ↦ shorter (length_at buf) refl (rw (long, if◌then◌else◌) at h)
    ]
  where
    stuck : ltb (length buf) 2 ≡ true → ⊥
    stuck short = none_not_some pdu rest _ (rw (short, if◌then◌else◌) at h) refl

    shorter :
        (measured : Option (ℕ × ℕ))
        → length_at buf ≡ measured
        → next_pdu vector_len header_len last_vector last_header buf measured ≡ some (pdu, rest)
        → length rest + 2 ≤ length buf
    shorter none e k = absurd (none_not_some pdu rest _ k (unfold next_pdu in refl))
    shorter (some (len, header_octets)) e k =
        let two = length_at_two buf len header_octets e in
        let next = advance-drop len buf _ pdu rest (opened len header_octets k) in
        let fits =
          pdu_at_fits vector_len header_len last_vector last_header buf len header_octets pdu
            next.0 in
        dropped len next.1 (omega (arith, two, fits.0)) fits.1
      where
        opened :
            (len header_octets : ℕ)
            → next_pdu vector_len header_len last_vector last_header buf (some (len, header_octets))
              ≡ some (pdu, rest)
            → advance len buf
                (pdu_at vector_len header_len last_vector last_header buf len header_octets)
              ≡ some (pdu, rest)
        opened len header_octets k = unfold next_pdu in k

        dropped :
            (len : ℕ)
            → drop len buf ≡ rest
            → 2 ≤ len
            → len ≤ length buf
            → length rest + 2 ≤ length buf
        dropped len d two fits = rw (sym d) (omega (arith, length-drop len buf, two, fits))

-- As much fuel as the buffer has octets is enough: the loop gives the same PDUs on any more fuel.
pub walk_enough :
    (fuel more vector_len header_len : ℕ) (last_vector last_header buf : List ℕ)
    → length buf ≤ fuel
    → fuel ≤ more
    → walk more vector_len header_len last_vector last_header buf
      ≡ walk fuel vector_len header_len last_vector last_header buf
unfolding walk
walk_enough zero zero vector_len header_len last_vector last_header buf h k = refl
walk_enough zero (suc more) vector_len header_len last_vector last_header [] h k =
    unfold walk walk_once in refl
walk_enough zero (suc more) vector_len header_len last_vector last_header (x ∷ xs) h k =
    absurd (omega arith)
walk_enough (suc fuel) zero vector_len header_len last_vector last_header buf h k =
    absurd (omega arith)
walk_enough (suc fuel) (suc more) vector_len header_len last_vector last_header buf h k =
    elim (Option-cases (walk_once vector_len header_len last_vector last_header buf)) [
      | inl ended ↦ rw (ended, walk) refl
      | inr ((pdu, rest), e) ↦
          let shorter =
            walk_once_shorter vector_len header_len last_vector last_header buf pdu rest e in
          rw (e, walk)
            (ap (λ (t : List Pdu). pdu ∷ t)
              (walk_enough fuel more vector_len header_len pdu.vector pdu.header rest
                (omega (arith, shorter, h)) (omega (arith, k))))
    ]
