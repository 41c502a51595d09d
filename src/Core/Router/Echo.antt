-- ===== src/Core/Router/Echo.antt =====
-- Echo suppression of router.rs: deliveries are complete, and confirmations are not bounced.
use dante_babel_box.Prelude.{
  Bool, true, false, List, [], ◌∷◌, ◌≡◌, refl, ap, arith, All, All-imp, All-×, Bool-cases, inl, inr,
}
use dante_babel_box.Prelude.Maps.{insert}
use dante_babel_box.Oca.{OcaAddress, address_eq, address_eq_iff, OcaValue, value_eq, OcaEvent}
use dante_babel_box.Core.Router.{Router, peers_of, holds, push_to_peers, handle_event}
use dante_babel_box.Core.Router.Delivery.{
  IsRegistered, contains, NoRepeat, IsFresh, Keeps, holds-insert, push_to_peers-Keeps,
  push_to_peers-IsFresh, push_to_peers-holds, fresh-ne, push_to_peers-NoRepeat, All-contains,
  contains_self, push_to_peers-contains, IsFresh-Keeps,
}

-- The state after the reported value is recorded, and before any push.
abbrev pub record_value :
    {F Adapter : Type 0} → Router F Adapter → OcaAddress → OcaValue F → Router F Adapter
record_value r a v = record r { last_known = insert address_eq a v r.last_known }

module _ {F Adapter : Type 0} (feq : F → F → Bool) (v : OcaValue F)
    (v_refl : value_eq feq v v ≡ true) where
  pub record_value-Keeps :
      (r : Router F Adapter) (a : OcaAddress) → Keeps feq v r (record_value r a v)
  record_value-Keeps r a = record {
    devices = refl;
    mappings = refl;
    held = λ q h. ground (arith, v_refl, holds-insert feq r.last_known v v a q);
  }

  record_value-holds :
      (r : Router F Adapter) (a : OcaAddress) → holds feq (record_value r a v).last_known v a ≡ true
  record_value-holds r a =
      ground (arith, v_refl, holds-insert feq r.last_known v v a a, address_eq_iff a a)

All-⊥ : {A : Type 0} {P : A → Type 0} (xs : List A) → All P xs → ((a : A) → P a → ⊥) → xs ≡ []
All-⊥ [] h f = refl
All-⊥ (x ∷ xs) h f = absurd (f x h.0)

module _ {F Adapter : Type 0} (feq : F → F → Bool) (r : Router F Adapter) (e : OcaEvent F) where
  module _ (v_refl : value_eq feq e.object.value e.object.value ≡ true) where
    -- After an event with a value that equals itself, which a NaN does not, every registered peer of
    -- its address is known to hold the value, and so is the address itself; the devices and the
    -- mappings are as before.
    pub handle_event-delivers :
        (holds feq (handle_event feq r e).0.last_known e.object.value e.address ≡ true)
        × All
            (λ p.
              IsRegistered r p
              → holds feq (handle_event feq r e).0.last_known e.object.value p ≡ true)
            (peers_of r.mappings e.address)
        × ((handle_event feq r e).0.devices ≡ r.devices)
        × ((handle_event feq r e).0.mappings ≡ r.mappings)
    unfolding handle_event
    handle_event-delivers =
        let v = e.object.value in
        let r0 = record_value r e.address v in
        let peers = peers_of r.mappings e.address in
        let k = push_to_peers-Keeps feq v v_refl r0 peers in
        (
          k.held e.address (record_value-holds feq v v_refl r e.address),
          push_to_peers-holds feq v v_refl r0 peers,
          k.devices,
          k.mappings,
        )

    -- When the value of an event equals itself, which a NaN does not, a push of the event carries it
    -- to a registered device, at a peer of the event's address that is neither the address itself
    -- nor known to hold the value; no address is sent it twice.
    pub handle_event-pushes :
        All
          (λ s.
            ((s.value ≡ e.object.value)
              × IsRegistered r s.peer
              × (holds feq r.last_known e.object.value s.peer ≡ false)
              × (address_eq e.address s.peer ≡ false))
            × (contains (peers_of r.mappings e.address) s.peer ≡ true))
          (handle_event feq r e).1
        × NoRepeat (handle_event feq r e).1
    unfolding handle_event
    handle_event-pushes =
        let v = e.object.value in
        let r0 = record_value r e.address v in
        let peers = peers_of r.mappings e.address in
        let self = record_value-holds feq v v_refl r e.address in
        let back = IsFresh-Keeps feq v v_refl (record_value-Keeps feq v v_refl r e.address) in
        (
          All-× _ _ (push_to_peers feq v r0 peers).1
              (All-imp _ _ (push_to_peers feq v r0 peers).1
                (λ s fresh.
                  let (value, reg, free) = back s fresh in
                  (value, reg, free, fresh-ne feq v v_refl r0 e.address self s fresh))
                (push_to_peers-IsFresh feq v v_refl r0 peers))
              (push_to_peers-contains feq v r0 peers peers (contains_self peers)),
          push_to_peers-NoRepeat feq v v_refl r0 peers,
        )

module _ {F Adapter : Type 0} (feq : F → F → Bool) (r : Router F Adapter) (e e' : OcaEvent F)
    (same : e'.object.value ≡ e.object.value)
    (v_refl : value_eq feq e.object.value e.object.value ≡ true) where
  -- When the value of an event equals itself, which a NaN does not, a second event with this value
  -- right after it, such as a device's confirmation of a push, is sent neither to the address of the
  -- first event nor to any registered peer of it.
  pub no_bounce :
      All
        (λ s.
          (address_eq e.address s.peer ≡ false)
          × (contains (peers_of r.mappings e.address) s.peer ≡ false))
        (handle_event feq (handle_event feq r e).0 e').1
  no_bounce =
      let v = e.object.value in
      let r' = (handle_event feq r e).0 in
      let (self, peers, devices, mappings) = handle_event-delivers feq r e v_refl in
      All-imp _ _ (handle_event feq r' e').1
        (λ s f.
          let fresh : IsFresh feq v r' s = (
            cc (f.0.0, same),
            f.0.1,
            cc (f.0.2, ap (λ w. holds feq r'.last_known w s.peer) same),
          ) in
          (
            fresh-ne feq v v_refl r' e.address self s fresh,
            elim (Bool-cases (contains (peers_of r.mappings e.address) s.peer)) [
              | inl there ↦ cc (
                All-contains _ (peers_of r.mappings e.address) s.peer peers there
                    (fresh.1.0, cc (fresh.1.1, devices)),
                fresh.2,
              )
              | inr out ↦ out
            ],
          ))
        (handle_event-pushes feq r' e' (rw same v_refl)).0

-- A value that equals itself, reported again at the address where it was just handled, causes no
-- push.
pub repeat_silent :
    {F Adapter : Type 0} (feq : F → F → Bool) (r : Router F Adapter) (e : OcaEvent F)
    → value_eq feq e.object.value e.object.value ≡ true
    → (handle_event feq (handle_event feq r e).0 e).1 ≡ []
repeat_silent feq r e v_refl =
    let r' = (handle_event feq r e).0 in
    let (self, peers, devices, mappings) = handle_event-delivers feq r e v_refl in
    All-⊥ (handle_event feq r' e).1
      (All-× _ _ (handle_event feq r' e).1 (no_bounce feq r e e refl v_refl)
        (handle_event-pushes feq r' e v_refl).0)
      (λ s f. cc (f.0.1, f.1.1, ap (λ ms. contains (peers_of ms e.address) s.peer) mappings))
