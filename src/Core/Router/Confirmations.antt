-- ===== src/Core/Router/Confirmations.antt =====
-- A value running through the mappings of router.rs while every device confirms what it is sent: what
-- is sent, to whom, and how often.
use dante_babel_box.Prelude.{
  ℕ, zero, suc, Bool, true, false, List, [], ◌∷◌, ◌++◌, ◌≡◌, ap, All, All-append, map, All-imp,
}
use dante_babel_box.Oca.{OcaAddress, address_eq, OcaValue, value_eq}
use dante_babel_box.Core.Router.{Push, Router, peers_of, holds, handle_event}
use dante_babel_box.Core.Router.Delivery.{
  contains, NoRepeat, IsFresh, Keeps, Keeps-trans, IsFresh-Keeps, fresh-ne, All-contains,
  push_to_peers-Keeps,
}
use dante_babel_box.Core.Router.Echo.{
  record_value, record_value-Keeps, handle_event-delivers, handle_event-pushes,
}
use dante_babel_box.Core.Router.Missing.{endpoints, confirmation, peers_of-endpoints}

pub record Outcome (F Adapter : Type 0) : Type 0 where
  pub router : Router F Adapter
  pub waiting : List OcaAddress
  pub sent : List (Push F)

-- The addresses in `queue` report `v` one after the other, and each address that is sent the value
-- joins the queue to confirm it.
unfoldable pub cascade :
    {F Adapter : Type 0}
    → (F → F → Bool)
    → OcaValue F
    → ℕ
    → Router F Adapter
    → List OcaAddress
    → Outcome F Adapter
cascade feq v fuel r [] = record { router = r; waiting = []; sent = [] }
cascade feq v zero r (a ∷ queue) = record { router = r; waiting = a ∷ queue; sent = [] }
cascade feq v (suc fuel) r (a ∷ queue) =
    let (r', pushes) = handle_event feq r (confirmation v a) in
    let rest = cascade feq v fuel r' (queue ++ map (λ s. s.peer) pushes) in
    record rest { sent = pushes ++ rest.sent }

NoRepeat-append :
    {F : Type 0} (xs ys : List (Push F))
    → NoRepeat xs
    → NoRepeat ys
    → All (λ s. All (λ t. address_eq s.peer t.peer ≡ false) ys) xs
    → NoRepeat (xs ++ ys)
NoRepeat-append [] ys h k apart = k
NoRepeat-append (x ∷ xs) ys h k apart =
    (All-append _ xs ys h.0 apart.0, NoRepeat-append xs ys h.1 k apart.1)

-- A push of a cascade that starts in `r`: of the value at hand, to a registered device, at a
-- mapped address that is not known to hold the value before.
abbrev pub IsOwing :
    {F Adapter : Type 0} → (F → F → Bool) → OcaValue F → Router F Adapter → Push F → Type 0
IsOwing feq v r s = IsFresh feq v r s × (contains (endpoints r.mappings) s.peer ≡ true)

module _ {F Adapter : Type 0} (feq : F → F → Bool) (v : OcaValue F)
    (v_refl : value_eq feq v v ≡ true) where
  pub handle_event-Keeps :
      (r : Router F Adapter) (a : OcaAddress)
      → Keeps feq v r (handle_event feq r (confirmation v a)).0
  unfolding handle_event
  handle_event-Keeps r a =
      Keeps-trans feq v (record_value-Keeps feq v v_refl r a)
        (push_to_peers-Keeps feq v v_refl (record_value r a v) (peers_of r.mappings a))

  pub IsOwing-Keeps :
      {r r' : Router F Adapter}
      → Keeps feq v r r'
      → (s : Push F) → IsOwing feq v r' s
      → IsOwing feq v r s
  IsOwing-Keeps {r} {r'} k s (fresh, mapped) = (
    IsFresh-Keeps feq v v_refl k s fresh,
    cc (mapped, ap (λ ms. contains (endpoints ms) s.peer) k.mappings),
  )

  -- What one report sends is owed before it, and held after it.
  pub handle_event-IsOwing :
      (r : Router F Adapter) (a : OcaAddress)
      → All
          (λ s.
            IsOwing feq v r s
            × (holds feq (handle_event feq r (confirmation v a)).0.last_known v s.peer ≡ true))
          (handle_event feq r (confirmation v a)).1
  handle_event-IsOwing r a =
      All-imp _ _ (handle_event feq r (confirmation v a)).1
        (λ s f. (
          (
            (f.0.0, f.0.1, f.0.2),
            All-contains _ (peers_of r.mappings a) s.peer (peers_of-endpoints r.mappings a) f.1,
          ),
          All-contains _ (peers_of r.mappings a) s.peer
              (handle_event-delivers feq r (confirmation v a) v_refl).1 f.1 f.0.1,
        ))
        (handle_event-pushes feq r (confirmation v a) v_refl).0

  pub cascade-IsOwing :
      (fuel : ℕ) (r : Router F Adapter) (queue : List OcaAddress)
      → All (IsOwing feq v r) (cascade feq v fuel r queue).sent
  unfolding cascade
  cascade-IsOwing zero r [] = tt
  cascade-IsOwing (suc fuel) r [] = tt
  cascade-IsOwing zero r (a ∷ queue) = tt
  cascade-IsOwing (suc fuel) r (a ∷ queue) =
      let r' = (handle_event feq r (confirmation v a)).0 in
      let pushes = (handle_event feq r (confirmation v a)).1 in
      let queue' = queue ++ map (λ s. s.peer) pushes in
      All-append (IsOwing feq v r) pushes (cascade feq v fuel r' queue').sent
        (All-imp _ _ pushes (λ s f. f.0) (handle_event-IsOwing r a))
        (All-imp _ _ (cascade feq v fuel r' queue').sent (IsOwing-Keeps (handle_event-Keeps r a))
          (cascade-IsOwing fuel r' queue'))

  pub cascade-NoRepeat :
      (fuel : ℕ) (r : Router F Adapter) (queue : List OcaAddress)
      → NoRepeat (cascade feq v fuel r queue).sent
  unfolding cascade
  cascade-NoRepeat zero r [] = tt
  cascade-NoRepeat (suc fuel) r [] = tt
  cascade-NoRepeat zero r (a ∷ queue) = tt
  cascade-NoRepeat (suc fuel) r (a ∷ queue) =
      let r' = (handle_event feq r (confirmation v a)).0 in
      let pushes = (handle_event feq r (confirmation v a)).1 in
      let queue' = queue ++ map (λ s. s.peer) pushes in
      let more = (cascade feq v fuel r' queue').sent in
      NoRepeat-append pushes more (handle_event-pushes feq r (confirmation v a) v_refl).1
        (cascade-NoRepeat fuel r' queue')
        (All-imp _ _ pushes
          (λ s f.
            All-imp _ _ more (λ t g. fresh-ne feq v v_refl r' s.peer f.1 t g.0)
              (cascade-IsOwing fuel r' queue'))
          (handle_event-IsOwing r a))
