-- ===== src/Core/Router/Cascade.antt =====
-- A value running through the mappings of router.rs while every device confirms what it is sent: how
-- it comes to rest.
use mathlib.Core.Path.{subst}
use dante_babel_box.Prelude.{
  ℕ, zero, suc, ◌+◌, ◌≤◌, Bool, true, List, [], ◌∷◌, ◌++◌, ◌≡◌, refl, ap, arith, All, length,
  length-append, All-append, map, All-imp,
}
use dante_babel_box.Oca.{OcaAddress, OcaValue, value_eq}
use dante_babel_box.Core.Router.{Push, Router, peers_of, holds, handle_event}
use dante_babel_box.Core.Router.Delivery.{IsRegistered, NoRepeat, Keeps, Keeps-trans}
use dante_babel_box.Core.Router.Echo.{handle_event-delivers}
use dante_babel_box.Core.Router.Missing.{
  endpoints, missing, confirmation, handle_event-missing, mappings-handle_event,
}
use dante_babel_box.Core.Router.Confirmations.{
  cascade, IsOwing, handle_event-Keeps, cascade-IsOwing, cascade-NoRepeat,
}

-- In `r'`, an address is known to hold the value, and so is each peer of it that `r` has a device for.
abbrev pub IsReached :
    {F Adapter : Type 0}
    → (F → F → Bool)
    → OcaValue F
    → Router F Adapter
    → Router F Adapter
    → OcaAddress
    → Type 0
IsReached feq v r r' a =
    (holds feq r'.last_known v a ≡ true)
    × All (λ p. IsRegistered r p → holds feq r'.last_known v p ≡ true) (peers_of r.mappings a)

length-map_peer :
    {F : Type 0} (pushes : List (Push F)) → length (map (λ s. s.peer) pushes) ≡ length pushes
length-map_peer [] = refl
length-map_peer (s ∷ ss) = ap suc (length-map_peer ss)

All-append_split :
    {A : Type 0} (P : A → Type 0) (xs ys : List A) → All P (xs ++ ys) → All P xs × All P ys
All-append_split P [] ys h = (tt, h)
All-append_split P (x ∷ xs) ys h =
    let (left, right) = All-append_split P xs ys h.1 in ((h.0, left), right)

All-map_peer :
    {F : Type 0} (P : OcaAddress → Type 0) (pushes : List (Push F))
    → All P (map (λ s. s.peer) pushes)
    → All (λ s. P s.peer) pushes
All-map_peer P [] h = tt
All-map_peer P (s ∷ ss) h = (h.0, All-map_peer P ss h.1)

module _ {F Adapter : Type 0} (feq : F → F → Bool) (v : OcaValue F)
    (v_refl : value_eq feq v v ≡ true) where
  cascade-waiting :
      (fuel : ℕ) (r : Router F Adapter) (queue : List OcaAddress)
      → length queue + missing feq r.last_known v (endpoints r.mappings) ≤ fuel
      → (cascade feq v fuel r queue).waiting ≡ []
  unfolding cascade
  cascade-waiting zero r [] h = refl
  cascade-waiting (suc fuel) r [] h = refl
  cascade-waiting zero r (a ∷ queue) h = absurd (omega arith)
  cascade-waiting (suc fuel) r (a ∷ queue) h =
      let r' = (handle_event feq r (confirmation v a)).0 in
      let pushes = (handle_event feq r (confirmation v a)).1 in
      cascade-waiting fuel r' (queue ++ map (λ s. s.peer) pushes) (
        omega (
          arith,
          handle_event-missing feq v v_refl r a,
          ap (λ ms. missing feq r'.last_known v (endpoints ms))
              (mappings-handle_event feq v v_refl r a),
          h,
          length-append queue (map (λ s. s.peer) pushes),
          length-map_peer pushes,
        ))

  cascade-Keeps :
      (fuel : ℕ) (r : Router F Adapter) (queue : List OcaAddress)
      → Keeps feq v r (cascade feq v fuel r queue).router
  unfolding cascade
  cascade-Keeps zero r [] = record { devices = refl; mappings = refl; held = λ q h. h }
  cascade-Keeps (suc fuel) r [] = record { devices = refl; mappings = refl; held = λ q h. h }
  cascade-Keeps zero r (a ∷ queue) = record { devices = refl; mappings = refl; held = λ q h. h }
  cascade-Keeps (suc fuel) r (a ∷ queue) =
      let (r', pushes) = handle_event feq r (confirmation v a) in
      Keeps-trans feq v (handle_event-Keeps feq v v_refl r a)
        (cascade-Keeps fuel r' (queue ++ map (λ s. s.peer) pushes))

  -- What is reached by way of `r'` is reached from `r`.
  IsReached-before :
      (r r' final : Router F Adapter)
      → Keeps feq v r r'
      → (a : OcaAddress) → IsReached feq v r' final a
      → IsReached feq v r final a
  IsReached-before r r' final k a (held, peers) = (
    held,
    subst
        (λ ms. All (λ p. IsRegistered r p → holds feq final.last_known v p ≡ true) (peers_of ms a))
        k.mappings
        (All-imp _ _ (peers_of r'.mappings a) (λ p h (adapter, e). h (adapter, cc (k.devices, e)))
          peers),
  )

  reported-IsReached :
      (r final : Router F Adapter) (a : OcaAddress)
      → Keeps feq v (handle_event feq r (confirmation v a)).0 final
      → IsReached feq v r final a
  reported-IsReached r final a k =
      let (self, peers, devices, mappings) =
        handle_event-delivers feq r (confirmation v a) v_refl in
      (
        k.held a self,
        All-imp _ _ (peers_of r.mappings a) (λ p h registered. k.held p (h registered)) peers,
      )

  cascade-IsReached :
      (fuel : ℕ) (r : Router F Adapter) (queue : List OcaAddress)
      → (cascade feq v fuel r queue).waiting ≡ []
      → All (IsReached feq v r (cascade feq v fuel r queue).router) queue
        × All
            (λ s. IsReached feq v r (cascade feq v fuel r queue).router s.peer)
            (cascade feq v fuel r queue).sent
  unfolding cascade
  cascade-IsReached zero r [] h = (tt, tt)
  cascade-IsReached (suc fuel) r [] h = (tt, tt)
  cascade-IsReached zero r (a ∷ queue) h = cc
  cascade-IsReached (suc fuel) r (a ∷ queue) h =
      let r' = (handle_event feq r (confirmation v a)).0 in
      let pushes = (handle_event feq r (confirmation v a)).1 in
      let queue' = queue ++ map (λ s. s.peer) pushes in
      let rest = cascade feq v fuel r' queue' in
      let back = IsReached-before r r' rest.router (handle_event-Keeps feq v v_refl r a) in
      let (there, later) = cascade-IsReached fuel r' queue' h in
      let (old, new) =
        All-append_split (IsReached feq v r rest.router) queue (map (λ s. s.peer) pushes)
          (All-imp _ _ queue' back there) in
      (
        (reported-IsReached r rest.router a (cascade-Keeps fuel r' queue'), old),
        All-append _ pushes rest.sent (All-map_peer (IsReached feq v r rest.router) pushes new)
            (All-imp _ _ rest.sent (λ s g. back s.peer g) later),
      )

  -- When a value that equals itself, which a NaN does not, is reported at the addresses of a queue,
  -- and every device confirms what it is sent, the value stops moving: with fuel for the queue and
  -- for both sides of every mapping that are not known to hold the value, no confirmation is left
  -- waiting. No address is sent the value twice, and each push carries the value to a registered
  -- device, at a mapped address that was not known to hold it at the start. At the end each address
  -- that has reported the value or been sent it, and each registered peer of it, is known to hold it.
  pub cascade_ends :
      (fuel : ℕ) (r : Router F Adapter) (queue : List OcaAddress)
      → length queue + missing feq r.last_known v (endpoints r.mappings) ≤ fuel
      → ((cascade feq v fuel r queue).waiting ≡ [])
        × NoRepeat (cascade feq v fuel r queue).sent
        × All (IsOwing feq v r) (cascade feq v fuel r queue).sent
        × All (IsReached feq v r (cascade feq v fuel r queue).router) queue
        × All
            (λ s. IsReached feq v r (cascade feq v fuel r queue).router s.peer)
            (cascade feq v fuel r queue).sent
  cascade_ends fuel r queue h =
      let rests = cascade-waiting fuel r queue h in
      let (reported, sent) = cascade-IsReached fuel r queue rests in
      (
        rests,
        cascade-NoRepeat feq v v_refl fuel r queue,
        cascade-IsOwing feq v v_refl fuel r queue,
        reported,
        sent,
      )
