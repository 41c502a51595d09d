-- ===== src/Core/Router/Listeners.antt =====
-- The listener tasks of router.rs: whatever calls are made, each registered device has exactly one
-- running listener, and no other listener runs.
use dante_babel_box.Prelude.{
  ℕ, ◌<◌, String, Bool, true, false, ◌||◌, Option, none, some, List, [], ◌∷◌, ◌≡◌, refl, arith,
  str_eq, eq_iff, ◌==◌, if◌then◌else◌, Option-cases, Bool-cases, inl, inr,
}
use dante_babel_box.Prelude.Maps.{lookup, remove, lookup-insert, lookup-remove}
use dante_babel_box.Core.Router.{
  Mapping, Router, abort, abort_handle, new, register_device, deregister_device,
}

abbrev is_some : {A : Type 0} → Option A → Bool
is_some none = false
is_some (some a) = true

unfoldable pub runs : List ℕ → ℕ → Bool
runs [] t = false
runs (x ∷ xs) t = x == t || runs xs t

runs-abort :
    (task : ℕ) (ts : List ℕ) (t : ℕ)
    → runs (abort task ts) t ≡ (if task == t then false else runs ts t)
unfolding runs abort
runs-abort task [] t = ground arith
runs-abort task (x ∷ xs) t = ground (arith, runs-abort task xs t)

is_task : Option ℕ → ℕ → Bool
is_task none t = false
is_task (some x) t = x == t

runs-abort_handle :
    (o : Option ℕ) (ts : List ℕ) (t : ℕ)
    → runs (abort_handle o ts) t ≡ (if is_task o t then false else runs ts t)
unfolding abort_handle is_task
runs-abort_handle none ts t = refl
runs-abort_handle (some x) ts t = runs-abort x ts t

module _ {F Adapter : Type 0} where
  pub record IsListening (r : Router F Adapter) : Type 0 where
    -- a device is registered exactly if the router keeps a listener for it
    pub paired :
        (id : String)
        → is_some (lookup str_eq id r.devices) ≡ is_some (lookup str_eq id r.listeners)
    -- the listener that is kept for a device runs
    pub alive :
        (id : String) (t : ℕ) → lookup str_eq id r.listeners ≡ some t → runs r.running t ≡ true
    -- a task that runs is the one that is kept for some device
    pub owned :
        (t : ℕ) → runs r.running t ≡ true → (id : String) × (lookup str_eq id r.listeners ≡ some t)
    -- two devices have different listeners
    pub unique :
        (id j : String) (t : ℕ)
        → lookup str_eq id r.listeners ≡ some t
        → lookup str_eq j r.listeners ≡ some t
        → id ≡ j
    pub spawned : (id : String) (t : ℕ) → lookup str_eq id r.listeners ≡ some t → t < r.next_task

  pub new-IsListening : (ms : List Mapping) → IsListening (new {F = F} {Adapter = Adapter} ms)
  unfolding new lookup runs
  new-IsListening ms = record {
    paired = λ id. refl;
    alive = λ id t e. cc;
    owned = λ t e. cc;
    unique = λ id j t e f. cc;
    spawned = λ id t e. cc;
  }

  register_device-alive :
      (r : Router F Adapter) (id : String) (a : Adapter)
      → IsListening r
      → (j : String) (t : ℕ) → lookup str_eq j (register_device r id a).listeners ≡ some t
      → runs (register_device r id a).running t ≡ true
  unfolding register_device runs is_task
  register_device-alive r id a h j t e = ground (
    arith,
    e,
    eq_iff id j,
    lookup-insert str_eq eq_iff id j r.next_task r.listeners,
    runs-abort_handle (lookup str_eq id r.listeners) (r.next_task ∷ r.running) t,
    h.alive j t,
    h.unique id j t,
    h.spawned id t,
  )

  register_device-owned :
      (r : Router F Adapter) (id : String) (a : Adapter)
      → IsListening r
      → (t : ℕ) → runs (register_device r id a).running t ≡ true
      → (j : String) × (lookup str_eq j (register_device r id a).listeners ≡ some t)
  unfolding register_device runs is_task
  register_device-owned r id a h t e =
      let runs' = runs-abort_handle (lookup str_eq id r.listeners) (r.next_task ∷ r.running) t in
      elim (Bool-cases (r.next_task == t)) [
        | inl fresh ↦ (
          id,
          ground (
            arith,
            fresh,
            eq_iff id id,
            lookup-insert str_eq eq_iff id id r.next_task r.listeners,
          ),
        )
        | inr older ↦
            let (j, kept) = h.owned t (ground (arith, older, runs', e)) in
            (
              j,
              ground (
                arith,
                e,
                older,
                kept,
                runs',
                eq_iff id j,
                lookup-insert str_eq eq_iff id j r.next_task r.listeners,
              ),
            )
      ]

  pub register_device-IsListening :
      (r : Router F Adapter) (id : String) (a : Adapter)
      → IsListening r
      → IsListening (register_device r id a)
  unfolding register_device
  register_device-IsListening r id a h = record {
    paired = λ j. ground (
      arith,
      h.paired j,
      lookup-insert str_eq eq_iff id j a r.devices,
      lookup-insert str_eq eq_iff id j r.next_task r.listeners,
    );
    alive = register_device-alive r id a h;
    owned = register_device-owned r id a h;
    unique = λ j k t e f. ground (
      arith,
      eq_iff id j,
      eq_iff id k,
      h.unique j k t,
      h.spawned j t,
      h.spawned k t,
      lookup-insert str_eq eq_iff id j r.next_task r.listeners,
      lookup-insert str_eq eq_iff id k r.next_task r.listeners,
    );
    spawned = λ j t e.
        ground (arith, h.spawned j t, lookup-insert str_eq eq_iff id j r.next_task r.listeners);
  }

  -- The state of `r` with the device `id` taken out.
  abbrev taken_out : Router F Adapter → String → Router F Adapter
  taken_out r id = record r {
    devices = remove str_eq id r.devices;
    listeners = remove str_eq id r.listeners;
    running = abort_handle (lookup str_eq id r.listeners) r.running;
  }

  taken_out-owned :
      (r : Router F Adapter) (id : String)
      → IsListening r
      → (t : ℕ) → runs (taken_out r id).running t ≡ true
      → (j : String) × (lookup str_eq j (taken_out r id).listeners ≡ some t)
  unfolding is_task
  taken_out-owned r id h t e =
      let runs' = runs-abort_handle (lookup str_eq id r.listeners) r.running t in
      let (j, kept) = h.owned t (ground (arith, runs', e)) in
      (j, ground (arith, e, kept, runs', eq_iff id j, lookup-remove str_eq eq_iff id j r.listeners))

  taken_out-IsListening :
      (r : Router F Adapter) (id : String) → IsListening r → IsListening (taken_out r id)
  unfolding is_task
  taken_out-IsListening r id h = record {
    paired = λ j. ground (
      arith,
      h.paired j,
      lookup-remove str_eq eq_iff id j r.devices,
      lookup-remove str_eq eq_iff id j r.listeners,
    );
    alive = λ j t e. ground (
      arith,
      eq_iff id j,
      h.alive j t,
      h.unique id j t,
      lookup-remove str_eq eq_iff id j r.listeners,
      runs-abort_handle (lookup str_eq id r.listeners) r.running t,
    );
    owned = taken_out-owned r id h;
    unique = λ j k t e f. ground (
      arith,
      h.unique j k t,
      lookup-remove str_eq eq_iff id j r.listeners,
      lookup-remove str_eq eq_iff id k r.listeners,
    );
    spawned = λ j t e. ground (arith, h.spawned j t, lookup-remove str_eq eq_iff id j r.listeners);
  }

  pub deregister_device-IsListening :
      (r : Router F Adapter) (id : String) → IsListening r → IsListening (deregister_device r id).0
  unfolding deregister_device
  deregister_device-IsListening r id h = elim (Option-cases (lookup str_eq id r.devices)) [
    | inl e ↦ rw (e, deregister_device) h
    | inr (a, e) ↦ rw (e, deregister_device) (taken_out-IsListening r id h)
  ]
