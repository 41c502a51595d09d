-- ===== src/Core/Router/Delivery.antt =====
-- What `handle_event` of router.rs sends, and what it leaves known.
use dante_babel_box.Prelude.{
  Bool, true, false, ◌||◌, some, List, [], ◌∷◌, ◌≡◌, refl, str_eq, arith, All, All-append, All-imp,
  if◌then◌else◌, Option-cases, Bool-cases, inl, inr, ◌⊎◌,
}
use mathlib.Core.Path.{subst}
use dante_babel_box.Prelude.Maps.{lookup, insert, lookup-insert}
use dante_babel_box.Oca.{OcaAddress, address_eq, address_eq_iff, OcaValue, value_eq}
use dante_babel_box.Core.Router.{Push, Router, holds, push_to_peer, push_to_peers}

-- A device with the address's id is registered.
abbrev pub IsRegistered : {F Adapter : Type 0} → Router F Adapter → OcaAddress → Type 0
IsRegistered {F} {Adapter} r peer =
    (adapter : Adapter) × (lookup str_eq peer.device_id r.devices ≡ some adapter)

unfoldable pub contains : List OcaAddress → OcaAddress → Bool
contains [] a = false
contains (x ∷ xs) a = address_eq x a || contains xs a

-- No two of the pushes go to one address.
abbrev pub NoRepeat : {F : Type 0} → List (Push F) → Type 0
NoRepeat [] = Unit
NoRepeat (s ∷ ss) = All (λ t. address_eq s.peer t.peer ≡ false) ss × NoRepeat ss

contains-weaken :
    (x : OcaAddress) (xs ys : List OcaAddress)
    → All (λ p. contains xs p ≡ true) ys
    → All (λ p. contains (x ∷ xs) p ≡ true) ys
unfolding contains
contains-weaken x xs [] h = tt
contains-weaken x xs (y ∷ ys) h = (ground (arith, h.0), contains-weaken x xs ys h.1)

pub contains_self : (xs : List OcaAddress) → All (λ p. contains xs p ≡ true) xs
contains_self [] = tt
contains_self (x ∷ xs) = (
  unfold contains in ground (arith, address_eq_iff x x),
  contains-weaken x xs xs (contains_self xs),
)

pub All-contains :
    (P : OcaAddress → Type 0) (xs : List OcaAddress) (a : OcaAddress)
    → All P xs
    → contains xs a ≡ true
    → P a
All-contains P [] a h e = unfold contains in cc
All-contains P (x ∷ xs) a h e = elim (Bool-cases (address_eq x a)) [
  | inl same ↦ subst P ((address_eq_iff x a).0 same) h.0
  | inr other ↦ All-contains P xs a h.1 (unfold contains in ground (arith, other))
]

module _ {F : Type 0} (feq : F → F → Bool) where
  pub holds-insert :
      (known : List (OcaAddress × OcaValue F)) (v w : OcaValue F) (p q : OcaAddress)
      → holds feq (insert address_eq p w known) v q
        ≡ (if address_eq p q then value_eq feq w v else holds feq known v q)
  unfolding holds
  holds-insert known v w p q = ground (arith, lookup-insert address_eq address_eq_iff p q w known)

module _ {F Adapter : Type 0} (feq : F → F → Bool) (v : OcaValue F) where
  pub push_to_peer-contains :
      (r : Router F Adapter) (p : OcaAddress) (peers : List OcaAddress)
      → contains peers p ≡ true
      → All (λ s. contains peers s.peer ≡ true) (push_to_peer feq v r p).1
  unfolding push_to_peer
  push_to_peer-contains r p peers h = elim (Option-cases (lookup str_eq p.device_id r.devices)) [
    | inl e ↦ rw (e, push_to_peer, All) tt
    | inr (adapter, e) ↦ elim (Bool-cases (holds feq r.last_known v p)) [
      | inl k ↦ rw (e, k, push_to_peer, All) tt
      | inr k ↦ rw (e, k, push_to_peer, All) (h, tt)
    ]
  ]

  -- Only the peers at hand are sent anything.
  pub push_to_peers-contains :
      (r : Router F Adapter) (peers all : List OcaAddress)
      → All (λ p. contains all p ≡ true) peers
      → All (λ s. contains all s.peer ≡ true) (push_to_peers feq v r peers).1
  unfolding push_to_peers
  push_to_peers-contains r [] all h = tt
  push_to_peers-contains r (p ∷ ps) all h =
      let r' = (push_to_peer feq v r p).0 in
      All-append (λ s. contains all s.peer ≡ true) (push_to_peer feq v r p).1
        (push_to_peers feq v r' ps).1 (push_to_peer-contains r p all h.0)
        (push_to_peers-contains r' ps all h.1)

  -- What a step has sent is fresh: at the address's device, of the value `v`, and not yet held.
  abbrev pub IsFresh : Router F Adapter → Push F → Type 0
  IsFresh r s = (s.value ≡ v) × IsRegistered r s.peer × (holds feq r.last_known v s.peer ≡ false)

  -- A step of the loop keeps the devices and the mappings, and forgets no address that holds `v`.
  pub record Keeps (r r' : Router F Adapter) : Type 0 where
    pub devices : r'.devices ≡ r.devices
    pub mappings : r'.mappings ≡ r.mappings
    pub held :
        (q : OcaAddress) → holds feq r.last_known v q ≡ true → holds feq r'.last_known v q ≡ true

  pub Keeps-trans : {r s t : Router F Adapter} → Keeps r s → Keeps s t → Keeps r t
  Keeps-trans k l = record {
    devices = cc (k.devices, l.devices);
    mappings = cc (k.mappings, l.mappings);
    held = λ q h. l.held q (k.held q h);
  }

  module _ (v_refl : value_eq feq v v ≡ true) where
    pub push_to_peer-Keeps :
        (r : Router F Adapter) (peer : OcaAddress) → Keeps r (push_to_peer feq v r peer).0
    unfolding push_to_peer
    push_to_peer-Keeps r peer = record {
      devices = ground arith;
      mappings = ground arith;
      held = λ q h. ground (arith, v_refl, holds-insert feq r.last_known v v peer q);
    }

    push_to_peer-holds :
        (r : Router F Adapter) (peer : OcaAddress)
        → IsRegistered r peer
        → holds feq (push_to_peer feq v r peer).0.last_known v peer ≡ true
    unfolding push_to_peer
    push_to_peer-holds r peer (adapter, e) =
        ground
          (arith, e, v_refl, holds-insert feq r.last_known v v peer peer, address_eq_iff peer peer)

    pub push_to_peer-IsFresh :
        (r : Router F Adapter) (peer : OcaAddress) → All (IsFresh r) (push_to_peer feq v r peer).1
    unfolding push_to_peer
    push_to_peer-IsFresh r peer = elim (Option-cases (lookup str_eq peer.device_id r.devices)) [
      | inl e ↦ rw (e, push_to_peer, All) tt
      | inr (adapter, e) ↦ elim (Bool-cases (holds feq r.last_known v peer)) [
        | inl h ↦ rw (e, h, push_to_peer, All) tt
        | inr h ↦ rw (e, h, push_to_peer, All) ((refl, (adapter, e), h), tt)
      ]
    ]

    pub push_to_peers-Keeps :
        (r : Router F Adapter) (peers : List OcaAddress) → Keeps r (push_to_peers feq v r peers).0
    unfolding push_to_peers
    push_to_peers-Keeps r [] = record { devices = refl; mappings = refl; held = λ q h. h }
    push_to_peers-Keeps r (p ∷ ps) =
        Keeps-trans (push_to_peer-Keeps r p) (push_to_peers-Keeps (push_to_peer feq v r p).0 ps)

    IsRegistered-Keeps :
        {r r' : Router F Adapter} (q : OcaAddress)
        → Keeps r r'
        → IsRegistered r q
        → IsRegistered r' q
    IsRegistered-Keeps q k (adapter, e) = (adapter, cc (k.devices, e))

    pub IsFresh-Keeps :
        {r r' : Router F Adapter} → Keeps r r' → (s : Push F) → IsFresh r' s → IsFresh r s
    IsFresh-Keeps {r} {r'} k s (value, (adapter, e), free) = (
      value,
      (adapter, cc (k.devices, e)),
      elim (Bool-cases (holds feq r.last_known v s.peer)) [
        | inl h ↦ cc (k.held s.peer h, free)
        | inr h ↦ h
      ],
    )

    pub push_to_peers-IsFresh :
        (r : Router F Adapter) (peers : List OcaAddress)
        → All (IsFresh r) (push_to_peers feq v r peers).1
    unfolding push_to_peers
    push_to_peers-IsFresh r [] = tt
    push_to_peers-IsFresh r (p ∷ ps) =
        let r' = (push_to_peer feq v r p).0 in
        All-append (IsFresh r) (push_to_peer feq v r p).1 (push_to_peers feq v r' ps).1
          (push_to_peer-IsFresh r p)
          (All-imp _ _ (push_to_peers feq v r' ps).1 (IsFresh-Keeps (push_to_peer-Keeps r p))
            (push_to_peers-IsFresh r' ps))

    pub push_to_peers-holds :
        (r : Router F Adapter) (peers : List OcaAddress)
        → All
            (λ p.
              IsRegistered r p → holds feq (push_to_peers feq v r peers).0.last_known v p ≡ true)
            peers
    unfolding push_to_peers
    push_to_peers-holds r [] = tt
    push_to_peers-holds r (p ∷ ps) =
        let r' = (push_to_peer feq v r p).0 in
        (
          λ reg. (push_to_peers-Keeps r' ps).held p (push_to_peer-holds r p reg),
          All-imp _ _ ps (λ q h reg. h (IsRegistered-Keeps q (push_to_peer-Keeps r p) reg))
              (push_to_peers-holds r' ps),
        )

    -- A fresh push is not to an address that holds the value.
    pub fresh-ne :
        (r : Router F Adapter) (a : OcaAddress)
        → holds feq r.last_known v a ≡ true
        → (s : Push F) → IsFresh r s
        → address_eq a s.peer ≡ false
    fresh-ne r a h s (value, reg, free) = elim (Bool-cases (address_eq a s.peer)) [
      | inl same ↦ cc (h, free, (address_eq_iff a s.peer).0 same)
      | inr other ↦ other
    ]

    pub sent_cases :
        (r : Router F Adapter) (p : OcaAddress)
        → ((push_to_peer feq v r p).1 ≡ [])
          ⊎ (((push_to_peer feq v r p).1 ≡ record { peer = p; value = v } ∷ [])
              × (holds feq (push_to_peer feq v r p).0.last_known v p ≡ true))
    sent_cases r p = elim (Option-cases (lookup str_eq p.device_id r.devices)) [
      | inl e ↦ inl (unfold push_to_peer in ground (arith, e))
      | inr (adapter, e) ↦ elim (Bool-cases (holds feq r.last_known v p)) [
        | inl h ↦ inl (unfold push_to_peer in ground (arith, e, h))
        | inr h ↦
            inr (unfold push_to_peer in ground (arith, e, h), push_to_peer-holds r p (adapter, e))
      ]
    ]

    pub push_to_peers-NoRepeat :
        (r : Router F Adapter) (peers : List OcaAddress) → NoRepeat (push_to_peers feq v r peers).1
    unfolding push_to_peers
    push_to_peers-NoRepeat r [] = tt
    push_to_peers-NoRepeat r (p ∷ ps) =
        let r' = (push_to_peer feq v r p).0 in
        elim (sent_cases r p) [
          | inl e ↦ rw e (push_to_peers-NoRepeat r' ps)
          | inr (e, h) ↦ rw e (
            All-imp _ _ (push_to_peers feq v r' ps).1 (fresh-ne r' p h)
                (push_to_peers-IsFresh r' ps),
            push_to_peers-NoRepeat r' ps,
          )
        ]
