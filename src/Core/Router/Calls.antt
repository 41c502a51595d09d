-- ===== src/Core/Router/Calls.antt =====
-- Any sequence of calls of router.rs.
use dante_babel_box.Prelude.{String, Bool, List, [], ◌∷◌, ◌≡◌, refl, arith}
use dante_babel_box.Oca.{OcaAddress, OcaValue, OcaEvent}
use dante_babel_box.Core.Router.{
  Mapping, Router, new, register_device, deregister_device, update_mappings, add_mapping,
  remove_mapping, push_to_peer, push_to_peers, handle_event, listen_once,
}
use dante_babel_box.Core.Router.Listeners.{
  IsListening, new-IsListening, register_device-IsListening, deregister_device-IsListening,
}

-- The calls that change a router, a received event among them.
pub data Call (F Adapter : Type 0) : Type 0 where
  register : String → Adapter → Call F Adapter
  deregister : String → Call F Adapter
  update : List Mapping → Call F Adapter
  add : Mapping → Call F Adapter
  remove_pair : OcaAddress → OcaAddress → Call F Adapter
  receive : OcaEvent F → Call F Adapter

module _ {F Adapter : Type 0} where
  -- Calls that touch neither the devices nor the tasks.
  record SameTasks (r r' : Router F Adapter) : Type 0 where
    devices : r'.devices ≡ r.devices
    listeners : r'.listeners ≡ r.listeners
    running : r'.running ≡ r.running
    next_task : r'.next_task ≡ r.next_task

  SameTasks-IsListening :
      {r r' : Router F Adapter} → SameTasks r r' → IsListening r → IsListening r'
  SameTasks-IsListening s h = record {
    paired = λ id. rw (s.devices, s.listeners) (h.paired id);
    alive = λ id t e. rw s.running (h.alive id t (rw s.listeners at e));
    owned = λ t e. rw s.listeners (h.owned t (rw s.running at e));
    unique = λ id j t e f. h.unique id j t (rw s.listeners at e) (rw s.listeners at f);
    spawned = λ id t e. rw s.next_task (h.spawned id t (rw s.listeners at e));
  }

  module _ (feq : F → F → Bool) (v : OcaValue F) where
    push_to_peers-SameTasks :
        (r : Router F Adapter) (peers : List OcaAddress)
        → SameTasks r (push_to_peers feq v r peers).0
    unfolding push_to_peers push_to_peer
    push_to_peers-SameTasks r [] = record {
      devices = refl;
      listeners = refl;
      running = refl;
      next_task = refl;
    }
    push_to_peers-SameTasks r (p ∷ ps) =
        let s = push_to_peers-SameTasks (push_to_peer feq v r p).0 ps in
        record {
          devices = ground (arith, s.devices);
          listeners = ground (arith, s.listeners);
          running = ground (arith, s.running);
          next_task = ground (arith, s.next_task);
        }

  unfoldable pub call : (F → F → Bool) → Router F Adapter → Call F Adapter → Router F Adapter
  call feq r (register id a) = register_device r id a
  call feq r (deregister id) = (deregister_device r id).0
  call feq r (update ms) = update_mappings r ms
  call feq r (add m) = add_mapping r m
  call feq r (remove_pair from to) = (remove_mapping r from to).0
  call feq r (receive e) = (listen_once feq r e).0

  unfoldable pub calls :
      (F → F → Bool) → Router F Adapter → List (Call F Adapter) → Router F Adapter
  calls feq r [] = r
  calls feq r (c ∷ cs) = calls feq (call feq r c) cs

  call-IsListening :
      (feq : F → F → Bool) (r : Router F Adapter) (c : Call F Adapter)
      → IsListening r
      → IsListening (call feq r c)
  unfolding call
  call-IsListening feq r (register id a) h = register_device-IsListening r id a h
  call-IsListening feq r (deregister id) h = deregister_device-IsListening r id h
  call-IsListening feq r (update ms) h =
      unfold update_mappings in
      SameTasks-IsListening
        (record { devices = refl; listeners = refl; running = refl; next_task = refl }) h
  call-IsListening feq r (add m) h =
      unfold add_mapping in
      SameTasks-IsListening
        (record { devices = refl; listeners = refl; running = refl; next_task = refl }) h
  call-IsListening feq r (remove_pair from to) h =
      unfold remove_mapping in
      SameTasks-IsListening
        (record { devices = refl; listeners = refl; running = refl; next_task = refl }) h
  call-IsListening feq r (receive e) h =
      unfold listen_once handle_event in
      SameTasks-IsListening (push_to_peers-SameTasks feq e.object.value _ _) (
        SameTasks-IsListening
          (record { devices = refl; listeners = refl; running = refl; next_task = refl }) h)

  calls-IsListening :
      (feq : F → F → Bool) (cs : List (Call F Adapter)) (r : Router F Adapter)
      → IsListening r
      → IsListening (calls feq r cs)
  unfolding calls
  calls-IsListening feq [] r h = h
  calls-IsListening feq (c ∷ cs) r h =
      calls-IsListening feq cs (call feq r c) (call-IsListening feq r c h)

  -- After any calls on a new router each registered device has a listener of its own, which runs,
  -- and every listener that runs is the one of a registered device: replacing or removing a device
  -- leaves no stale task behind.
  pub listeners_exact :
      (feq : F → F → Bool) (ms : List Mapping) (cs : List (Call F Adapter))
      → IsListening (calls feq (new ms) cs)
  listeners_exact feq ms cs = calls-IsListening feq cs (new ms) (new-IsListening ms)
