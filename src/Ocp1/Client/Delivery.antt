-- ===== src/Ocp1/Client/Delivery.antt =====
-- Requests of one client of client.rs, and the responses that find them.
use dante_babel_box.Prelude.{
  err, ℕ, zero, suc, ◌+◌, ◌-◌, ◌%◌, ◌^◌, ◌<◌, ◌≤◌, ◌≢◌, ◌⊎◌, inl, inr, Bool, true, false, none,
  some, List, [], ◌∷◌, ◌++◌, ◌≡◌, refl, sym, ◌∙◌, arith, All, ◌==◌, ==_iff,
}
use dante_babel_box.Prelude.Maps.{lookup, insert, remove, lookup-insert, lookup-remove}
use dante_babel_box.Ocp1.{Error}
use dante_babel_box.Ocp1.Pdu.{Message, Response, Command, into_result}
use dante_babel_box.Ocp1.Client.{
  set_timeout, Client, Connection, take_handle, next_u32, request, time_out, on_message,
}

-- What happens to a connection that one client uses.
pub data Event : Type 0 where
  requested : Bool → ℕ → Command → Event
  received : Message → Event
  timed_out : ℕ → ℕ → Event

unfoldable pub run : List Event → Client × Connection → Client × Connection
run [] (client, c) = (client, c)
run (Event.requested running call cmd ∷ es) (client, c) = run es (request running call cmd client c)
run (Event.received m ∷ es) (client, c) = run es (client, on_message c m)
run (Event.timed_out call handle ∷ es) (client, c) = run es (client, time_out call handle c)

abbrev pub requests : List Event → ℕ
requests [] = 0
requests (Event.requested running call cmd ∷ es) = suc (requests es)
requests (Event.received m ∷ es) = requests es
requests (Event.timed_out call handle ∷ es) = requests es

-- The event does not end the wait for the handle.
abbrev pub Leaves : ℕ → Event → Type 0
Leaves h (Event.requested running call cmd) = Unit {0}
Leaves h (Event.received (Message.response_message r)) = r.handle ≢ h
Leaves h (Event.received (Message.notification_message n)) = Unit {0}
Leaves h (Event.received (Message.keep_alive_message secs)) = Unit {0}
Leaves h (Event.received (Message.command_message cmd)) = Unit {0}
Leaves h (Event.timed_out call handle) = handle ≢ h

-- The handles are 1, 2, .., 2^32 - 1 and again from 1: a counter stands at the `p`-th of them.
StandsAt : ℕ → ℕ → Type 0
StandsAt counter p = (counter ≡ p % 4294967295 + 1) ⊎ ((counter ≡ 0) × (p % 4294967295 ≡ 0))

abbrev handle_at : ℕ → ℕ
handle_at p = p % 4294967295 + 1

take_handle_of : (counter : ℕ) → counter ≢ 0 → take_handle counter ≡ (counter, next_u32 counter)
unfolding take_handle
take_handle_of counter h = ground arith

next_stands : (p : ℕ) → StandsAt (next_u32 (handle_at p)) (suc p)
unfolding StandsAt
next_stands p = omega arith

take_handle_at :
    (counter p : ℕ)
    → StandsAt counter p
    → ((take_handle counter).0 ≡ handle_at p) × StandsAt (take_handle counter).1 (suc p)
unfolding StandsAt
take_handle_at counter p (inl e) =
    rw (take_handle_of counter (omega arith), e) (refl, next_stands p)
take_handle_at counter p (inr (e, z)) =
    rw e (unfold take_handle in (omega arith, inl (omega arith)))

stands_somewhere : (counter : ℕ) → counter < 2 ^ 32 → (p : ℕ) × StandsAt counter p
unfolding StandsAt
stands_somewhere zero h = (0, inr (refl, refl))
stands_somewhere (suc n) h = (n, inl (omega arith))

handle_at_apart : (p q : ℕ) → p < q → q < p + 4294967295 → handle_at q ≢ handle_at p
handle_at_apart p q h k e = omega arith

other : (a b : ℕ) → a ≢ b → (a == b) ≡ false
other a b h = ground arith

-- Another handle's entry comes and goes without touching the one that is waited for.
module _ (h k call : ℕ) (pending : List (ℕ × ℕ)) (apart : k ≢ h) where
  kept_insert : lookup ◌==◌ h (insert ◌==◌ k call pending) ≡ lookup ◌==◌ h pending
  kept_insert = lookup-insert ◌==◌ ==_iff k h call pending ∙ rw (other k h apart) refl

module _ (h k : ℕ) (pending : List (ℕ × ℕ)) (apart : k ≢ h) where
  kept_remove : lookup ◌==◌ h (remove ◌==◌ k pending) ≡ lookup ◌==◌ h pending
  kept_remove = lookup-remove ◌==◌ ==_iff k h pending ∙ rw (other k h apart) refl

requested_keeps :
    (h : ℕ) (running : Bool) (call : ℕ) (cmd : Command) (client : Client) (c : Connection)
    → (take_handle client.next_handle).0 ≢ h
    → lookup ◌==◌ h (request running call cmd client c).1.pending ≡ lookup ◌==◌ h c.pending
unfolding request
requested_keeps h true call cmd client c apart = kept_insert h _ call c.pending apart
requested_keeps h false call cmd client c apart =
    kept_remove h _ (insert ◌==◌ (take_handle client.next_handle).0 call c.pending) apart
    ∙ kept_insert h _ call c.pending apart

received_keeps :
    (h : ℕ) (m : Message) (c : Connection)
    → Leaves h (Event.received m)
    → lookup ◌==◌ h (on_message c m).pending ≡ lookup ◌==◌ h c.pending
unfolding on_message
received_keeps h (Message.response_message r) c apart = kept_remove h r.handle c.pending apart
received_keeps h (Message.notification_message n) c leaves = refl
received_keeps h (Message.keep_alive_message secs) c leaves = refl
received_keeps h (Message.command_message cmd) c leaves = refl

timed_out_keeps :
    (h call k : ℕ) (c : Connection)
    → k ≢ h
    → lookup ◌==◌ h (time_out call k c).pending ≡ lookup ◌==◌ h c.pending
unfolding time_out
timed_out_keeps h call k c apart = kept_remove h k c.pending apart

-- While fewer than 2^32 - 1 requests are made, nothing takes the entry of a handle but what ends
-- its wait.
run_keeps :
    (h p q : ℕ) (es : List Event) (client : Client) (c : Connection)
    → h ≡ handle_at p
    → StandsAt client.next_handle q
    → p < q
    → q + requests es ≤ p + 4294967295
    → All (Leaves h) es
    → lookup ◌==◌ h (run es (client, c)).1.pending ≡ lookup ◌==◌ h c.pending
unfolding run
run_keeps h p q [] client c e at l m leaves = refl
run_keeps h p q (Event.requested running call cmd ∷ es) client c e at l m leaves =
    run_keeps h p (suc q) es (request running call cmd client c).0
      (request running call cmd client c).1 e
      (unfold request in (take_handle_at client.next_handle q at).1) (omega arith) (omega arith)
      leaves.1
    ∙ requested_keeps h running call cmd client c (λ taken.
      handle_at_apart p q l (omega arith)
        (sym (take_handle_at client.next_handle q at).0 ∙ taken ∙ e))
run_keeps h p q (Event.received m ∷ es) client c e at l k leaves =
    run_keeps h p q es client (on_message c m) e at l k leaves.1 ∙ received_keeps h m c leaves.0
run_keeps h p q (Event.timed_out call handle ∷ es) client c e at l m leaves =
    run_keeps h p q es client (time_out call handle c) e at l m leaves.1
    ∙ timed_out_keeps h call handle c leaves.0

own_entry : (h call : ℕ) (m : List (ℕ × ℕ)) → lookup ◌==◌ h (insert ◌==◌ h call m) ≡ some call
own_entry h call m = lookup-insert ◌==◌ ==_iff h h call m ∙ rw ((==_iff h h).1 refl) refl

-- A request under way, and what happens on the connection after it.
module _ (call : ℕ) (cmd : Command) (client : Client) (c : Connection) (es : List Event) where
  abbrev pub handle_of : ℕ
  handle_of = (take_handle client.next_handle).0

  abbrev pub later : Client × Connection
  later = run es (request true call cmd client c)

  entered : lookup ◌==◌ handle_of (request true call cmd client c).1.pending ≡ some call
  unfolding request
  entered = own_entry handle_of call c.pending

  waits :
      client.next_handle < 2 ^ 32
      → requests es < 2 ^ 32 - 1
      → All (Leaves handle_of) es
      → lookup ◌==◌ handle_of later.1.pending ≡ some call
  waits fits few leaves =
      let (p, at) = stands_somewhere client.next_handle fits in
      let (e, at_next) = take_handle_at client.next_handle p at in
      run_keeps handle_of p (suc p) es (request true call cmd client c).0
        (request true call cmd client c).1 e (unfold request in at_next) (omega arith) (omega arith)
        leaves
      ∙ entered

  -- A request that is sent gets the first response under its handle, whatever other requests,
  -- messages and timeouts come between, when those make fewer than 2^32 - 1 requests and none
  -- of them is a response or a timeout for the handle. The entry is used up by it.
  pub request_answered :
      (r : Response)
      → client.next_handle < 2 ^ 32
      → requests es < 2 ^ 32 - 1
      → All (Leaves handle_of) es
      → r.handle ≡ handle_of
      → ((on_message later.1 (Message.response_message r)).answers
          ≡ later.1.answers ++ record { call = call; result = into_result r } ∷ [])
        × (lookup ◌==◌ handle_of (on_message later.1 (Message.response_message r)).pending ≡ none)
  unfolding on_message
  request_answered r fits few leaves e =
      rw (e, waits fits few leaves)
        (
          refl,
          lookup-remove ◌==◌ ==_iff handle_of handle_of later.1.pending
              ∙ rw ((==_iff handle_of handle_of).1 refl) refl,
        )

-- A copy that `set_timeout` makes counts on from the same handle: its next request, when the client
-- has made one since, takes the handle of the client's, and the client's call is cut off.
pub request_copy_collides :
    (call others : ℕ) (cmd theirs : Command) (client : Client) (c : Connection)
    → (request true others theirs (set_timeout client) (request true call cmd client c).1).1.answers
      ≡ (request true call cmd client c).1.answers
        ++ record { call = call; result = err Error.disconnected } ∷ []
unfolding set_timeout request
request_copy_collides call others cmd theirs client c =
    rw (own_entry (take_handle client.next_handle).0 call c.pending) refl
