-- ===== src/Core/Router/Missing.antt =====
-- The mapped addresses of router.rs that are not known to hold a value, and how handling an event
-- changes their number.
use dante_babel_box.Prelude.{
  ℕ, suc, ◌+◌, ◌≤◌, Bool, true, false, List, [], ◌∷◌, ◌≡◌, arith, All, length, length-append,
  if◌then◌else◌, Bool-cases, inl, inr, ◌&&◌, All-imp,
}
use dante_babel_box.Oca.{
  OcaAddress, OcaClass, address_eq, address_eq_iff, OcaValue, value_eq, OcaEvent,
}
use dante_babel_box.Core.Router.{
  Mapping, Router, peers_of, holds, push_to_peer, push_to_peers, handle_event,
}
use dante_babel_box.Core.Router.Delivery.{
  contains, Keeps, push_to_peer-Keeps, push_to_peer-IsFresh, push_to_peers-Keeps, sent_cases,
}
use dante_babel_box.Core.Router.Echo.{record_value, record_value-Keeps}

-- Both sides of every mapping.
unfoldable pub endpoints : List Mapping → List OcaAddress
endpoints [] = []
endpoints (m ∷ ms) = m.from ∷ m.to ∷ endpoints ms

-- How many of the addresses are not known to hold the value.
unfoldable pub missing :
    {F : Type 0}
    → (F → F → Bool)
    → List (OcaAddress × OcaValue F)
    → OcaValue F
    → List OcaAddress
    → ℕ
missing feq known v [] = 0
missing feq known v (q ∷ qs) = (if holds feq known v q then 0 else 1) + missing feq known v qs

-- The event by which a device reports the value at an address.
abbrev pub confirmation : {F : Type 0} → OcaValue F → OcaAddress → OcaEvent F
confirmation v a = record {
  address = a;
  object = record { ono = a.ono; class = OcaClass.gain; role = []; settable = true; value = v };
}

endpoints-cons :
    (m : Mapping) (ms : List Mapping) (ps : List OcaAddress)
    → All (λ p. contains (endpoints ms) p ≡ true) ps
    → All (λ p. contains (endpoints (m ∷ ms)) p ≡ true) ps
unfolding endpoints contains
endpoints-cons m ms ps h = All-imp _ _ ps (λ p k. ground arith) h

pub peers_of-endpoints :
    (ms : List Mapping) (a : OcaAddress)
    → All (λ p. contains (endpoints ms) p ≡ true) (peers_of ms a)
unfolding peers_of endpoints contains
peers_of-endpoints [] a = tt
peers_of-endpoints (m ∷ ms) a =
    let rest = endpoints-cons m ms (peers_of ms a) (peers_of-endpoints ms a) in
    elim (Bool-cases (address_eq m.from a)) [
      | inl e ↦ rw (e, if◌then◌else◌) (ground (arith, address_eq_iff m.to m.to), rest)
      | inr e ↦ elim (Bool-cases (m.bidirectional && address_eq m.to a)) [
        | inl k ↦ rw (e, k, if◌then◌else◌) (ground (arith, address_eq_iff m.from m.from), rest)
        | inr k ↦ rw (e, k, if◌then◌else◌) rest
      ]
    ]

module _ {F Adapter : Type 0} (feq : F → F → Bool) (v : OcaValue F) where
  missing_mono :
      (r r' : Router F Adapter) (qs : List OcaAddress)
      → Keeps feq v r r'
      → missing feq r'.last_known v qs ≤ missing feq r.last_known v qs
  unfolding missing
  missing_mono r r' [] k = omega arith
  missing_mono r r' (q ∷ qs) k = ground (arith, k.held q, missing_mono r r' qs k)

  missing_strict :
      (r r' : Router F Adapter) (p : OcaAddress) (qs : List OcaAddress)
      → Keeps feq v r r'
      → contains qs p ≡ true
      → holds feq r.last_known v p ≡ false
      → holds feq r'.last_known v p ≡ true
      → suc (missing feq r'.last_known v qs) ≤ missing feq r.last_known v qs
  unfolding missing contains
  missing_strict r r' p [] k c free held = cc
  missing_strict r r' p (q ∷ qs) k c free held = elim (Bool-cases (address_eq q p)) [
    | inl same ↦
        let e = (address_eq_iff q p).0 same in
        let f : holds feq r.last_known v q ≡ false = cc (free, e) in
        let h : holds feq r'.last_known v q ≡ true = cc (held, e) in
        rw (f, h) (omega (arith, missing_mono r r' qs k))
    | inr other ↦
        ground
          (arith, other, k.held q, missing_mono r r' qs k, missing_strict r r' p qs k, free, held)
  ]

  module _ (v_refl : value_eq feq v v ≡ true) where
    push_to_peer-missing :
        (r : Router F Adapter) (p : OcaAddress) (qs : List OcaAddress)
        → contains qs p ≡ true
        → missing feq (push_to_peer feq v r p).0.last_known v qs + length (push_to_peer feq v r p).1
          ≤ missing feq r.last_known v qs
    push_to_peer-missing r p qs c =
        let k = push_to_peer-Keeps feq v v_refl r p in
        let fresh = push_to_peer-IsFresh feq v v_refl r p in
        elim (sent_cases feq v v_refl r p) [
          | inl e ↦ rw e (omega (arith, missing_mono r (push_to_peer feq v r p).0 qs k))
          | inr (e, h) ↦
              let free : holds feq r.last_known v p ≡ false = (rw e at fresh).0.2 in
              rw e (omega (arith, missing_strict r (push_to_peer feq v r p).0 p qs k c free h))
        ]

    push_to_peers-missing :
        (r : Router F Adapter) (peers qs : List OcaAddress)
        → All (λ p. contains qs p ≡ true) peers
        → missing feq (push_to_peers feq v r peers).0.last_known v qs
            + length (push_to_peers feq v r peers).1
          ≤ missing feq r.last_known v qs
    unfolding push_to_peers
    push_to_peers-missing r [] qs h = omega arith
    push_to_peers-missing r (p ∷ ps) qs h =
        let r' = (push_to_peer feq v r p).0 in
        omega (
          arith,
          push_to_peer-missing r p qs h.0,
          push_to_peers-missing r' ps qs h.1,
          length-append (push_to_peer feq v r p).1 (push_to_peers feq v r' ps).1,
        )

    pub handle_event-missing :
        (r : Router F Adapter) (a : OcaAddress)
        → missing feq (handle_event feq r (confirmation v a)).0.last_known v (endpoints r.mappings)
            + length (handle_event feq r (confirmation v a)).1
          ≤ missing feq r.last_known v (endpoints r.mappings)
    unfolding handle_event
    handle_event-missing r a =
        let r0 = record_value r a v in
        omega (
          arith,
          missing_mono r r0 (endpoints r.mappings) (record_value-Keeps feq v v_refl r a),
          push_to_peers-missing r0 (peers_of r.mappings a) (endpoints r.mappings)
              (peers_of-endpoints r.mappings a),
        )

    pub mappings-handle_event :
        (r : Router F Adapter) (a : OcaAddress)
        → (handle_event feq r (confirmation v a)).0.mappings ≡ r.mappings
    unfolding handle_event
    mappings-handle_event r a =
        (push_to_peers-Keeps feq v v_refl (record_value r a v) (peers_of r.mappings a)).mappings
