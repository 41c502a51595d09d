-- ===== src/Core/Router.antt =====
-- crates/core/src/router.rs: the fan-out of events to mapped objects. A call of the router takes its
-- state and gives the new one; what it sends to the adapters is a list of pushes, and of the adapters it disconnects. The calls of one
-- router are taken one after the other. An adapter is a value of a type parameter, and floats are
-- compared by the parameter `feq`, which need not be reflexive (NaN).
pub mod Delivery
pub mod Echo
pub mod Missing
pub mod Confirmations
pub mod Cascade
pub mod Listeners
pub mod Calls
use dante_babel_box.Prelude.{
  ℕ, ◌+◌, String, Bool, true, false, ◌&&◌, Option, none, some, List, [], ◌∷◌, ◌++◌, str_eq, ◌==◌,
  if◌then◌else◌,
}
use dante_babel_box.Prelude.Maps.{lookup, insert, remove}
use dante_babel_box.Oca.{OcaAddress, address_eq, OcaValue, value_eq, OcaEvent}

pub record Mapping : Type 0 where
  pub from : OcaAddress
  pub to : OcaAddress
  pub bidirectional : Bool

-- `device.set_object(peer.ono, value)`; an error of the adapter is only logged.
pub record Push (F : Type 0) : Type 0 where
  pub peer : OcaAddress
  pub value : OcaValue F

-- `running` are the listener tasks that have not been aborted, `listeners` the handle that the
-- router keeps for each device, `tapped` what was sent to the tap.
pub record Router (F Adapter : Type 0) : Type 0 where
  pub devices : List (String × Adapter)
  pub listeners : List (String × ℕ)
  pub mappings : List Mapping
  pub last_known : List (OcaAddress × OcaValue F)
  pub tapped : List (OcaEvent F)
  pub running : List ℕ
  pub next_task : ℕ

unfoldable pub peers_of : List Mapping → OcaAddress → List OcaAddress
peers_of [] addr = []
peers_of (m ∷ ms) addr =
    let rest = peers_of ms addr in
    if address_eq m.from addr
    then m.to ∷ rest
    else if m.bidirectional && address_eq m.to addr
    then m.from ∷ rest
    else rest

-- `id` is no longer in the list of running tasks.
unfoldable pub abort : ℕ → List ℕ → List ℕ
abort task [] = []
abort task (t ∷ ts) = let rest = abort task ts in if t == task then rest else t ∷ rest

unfoldable pub abort_handle : Option ℕ → List ℕ → List ℕ
unfolding abort
abort_handle none ts = ts
abort_handle (some task) ts = abort task ts

unfoldable pub remove_first : OcaAddress → OcaAddress → List Mapping → List Mapping × Bool
remove_first from to [] = ([], false)
remove_first from to (m ∷ ms) =
    let (rest, found) = remove_first from to ms in
    if address_eq m.from from && address_eq m.to to then (ms, true) else (m ∷ rest, found)

-- `known.get(&peer) == Some(&value)`
unfoldable pub holds :
    {F : Type 0} → (F → F → Bool) → List (OcaAddress × OcaValue F) → OcaValue F → OcaAddress → Bool
holds feq known value peer = elim (lookup address_eq peer known) [
  | none ↦ false
  | some held ↦ value_eq feq held value
]

module _ {F Adapter : Type 0} where
  unfoldable pub new : List Mapping → Router F Adapter
  new mappings = record {
    devices = [];
    listeners = [];
    mappings = mappings;
    last_known = [];
    tapped = [];
    running = [];
    next_task = 0;
  }

  unfoldable pub device : Router F Adapter → String → Option Adapter
  device r id = lookup str_eq id r.devices

  -- The new listener is spawned before the one that it replaces is aborted.
  unfoldable pub register_device : Router F Adapter → String → Adapter → Router F Adapter
  unfolding abort_handle
  register_device r id adapter =
      let task = r.next_task in
      let old = lookup str_eq id r.listeners in
      record r {
        devices = insert str_eq id adapter r.devices;
        listeners = insert str_eq id task r.listeners;
        running = abort_handle old (task ∷ r.running);
        next_task = task + 1;
      }

  -- The second part are the adapters on which `disconnect` is called: its error is only logged.
  unfoldable pub deregister_device :
      Router F Adapter → String → Router F Adapter × List Adapter × Bool
  unfolding abort_handle
  deregister_device r id = elim (lookup str_eq id r.devices) [
    | none ↦ (r, [], false)
    | some adapter ↦ (
      record r {
        devices = remove str_eq id r.devices;
        listeners = remove str_eq id r.listeners;
        running = abort_handle (lookup str_eq id r.listeners) r.running;
      },
      adapter ∷ [],
      true,
    )
  ]

  unfoldable pub update_mappings : Router F Adapter → List Mapping → Router F Adapter
  update_mappings r ms = record r { mappings = ms }

  unfoldable pub add_mapping : Router F Adapter → Mapping → Router F Adapter
  add_mapping r m = record r { mappings = r.mappings ++ m ∷ [] }

  unfoldable pub remove_mapping :
      Router F Adapter → OcaAddress → OcaAddress → Router F Adapter × Bool
  unfolding remove_first
  remove_mapping r from to =
      let (ms, found) = remove_first from to r.mappings in (record r { mappings = ms }, found)

  module _ (feq : F → F → Bool) where
    -- One round of the loop over the peers: an unknown device and a value already held are skipped;
    -- otherwise the value is claimed before it is sent.
    unfoldable pub push_to_peer :
        OcaValue F → Router F Adapter → OcaAddress → Router F Adapter × List (Push F)
    unfolding holds
    push_to_peer value r peer = elim (lookup str_eq peer.device_id r.devices) [
      | none ↦ (r, [])
      | some adapter ↦ if holds feq r.last_known value peer then (r, []) else (
        record r { last_known = insert address_eq peer value r.last_known },
        record { peer = peer; value = value } ∷ [],
      )
    ]

    unfoldable pub push_to_peers :
        OcaValue F → Router F Adapter → List OcaAddress → Router F Adapter × List (Push F)
    push_to_peers value r [] = (r, [])
    push_to_peers value r (peer ∷ peers) =
        let (r', sent) = push_to_peer value r peer in
        let (r'', more) = push_to_peers value r' peers in (r'', sent ++ more)

    unfoldable pub handle_event : Router F Adapter → OcaEvent F → Router F Adapter × List (Push F)
    handle_event r event =
        push_to_peers event.object.value
          (record r {
            last_known = insert address_eq event.address event.object.value r.last_known;
          })
          (peers_of r.mappings event.address)

    -- One received event of `listen`: the tap has it before the router acts on it.
    unfoldable pub listen_once : Router F Adapter → OcaEvent F → Router F Adapter × List (Push F)
    listen_once r event = handle_event (record r { tapped = r.tapped ++ event ∷ [] }) event
