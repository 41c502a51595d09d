-- ===== src/Core/GainLock/Runs.antt =====
-- The books of gain_lock.rs over a whole lock: whatever the engine does between `lock` and `unlock`.
use dante_babel_box.Core.GainLock.Ledger.{IsLedger}
use dante_babel_box.Oca.{as_f32, Ono, OcaObjectDescriptor, OcaEvent}
use dante_babel_box.Core.GainLock.Steps.{
  observe-IsOnBooks, hear-IsLedger, lock-IsOnBooks, weaken-IsLedger, read_lives-IsLedger,
  observe_all-IsOnBooks, retry_back-IsOnBooks, IsOnBooks,
}
use dante_babel_box.Prelude.Int.{◌+ℤ◌, ℤ}
use dante_babel_box.Core.GainLock.Engine.{
  set_ono, known_gain, set_written, position, Refusal, lock, set_found, nudge_preamp, set_preamp,
  modify_at,
}
use dante_babel_box.Core.GainLock.{Live, expect, Inner, Desks}
use dante_babel_box.Core.GainLock.Listening.{
  hear_event, answering, on_events, hear_all, hear_value, retry_failed, read_leader,
}
use dante_babel_box.Prelude.{
  zero, suc, none, some, inr, if◌then◌else◌, inl, str_eq, ok, some, err, Bool-cases, suc, ◌>>=◌,
  Option, Result, String, ℕ, ◌+◌, ◌*◌, List, [], ◌∷◌, ◌≡◌, arith, All, length,
}

-- What happens to the engine during a lock, each with the desks and the instant of the call.
pub data Action : Type 0 where
  report : Desks → ℕ → List (OcaEvent ℤ) → Action
  poll : Desks → ℕ → Action
  retry : Desks → Action
  set : Desks → ℕ → String → ℤ → Action
  nudge : Desks → ℕ → String → ℤ → Action

-- A refused operation leaves the engine as it is.
abbrev pub or_same : Inner → Result Refusal Inner → Inner
or_same inner (err e) = inner
or_same inner (ok inner') = inner'

unfoldable pub perform : Inner → Action → Inner
perform inner (report desks now batch) = on_events desks now batch inner
perform inner (poll desks now) = read_leader desks now inner
perform inner (retry desks) = retry_failed desks inner
perform inner (set desks now signal gain) = or_same inner (set_preamp desks now signal gain inner)
perform inner (nudge desks now signal delta) =
    or_same inner (nudge_preamp desks now signal delta inner)

-- How many observations, or settlements, one signal can go through in an action.
unfoldable pub observations : Inner → Action → ℕ
observations inner (report desks now batch) =
    length (hear_all now inner.leader batch inner.live []).1
observations inner (poll desks now) = 1
observations inner (retry desks) = 1
observations inner (set desks now signal gain) = 1
observations inner (nudge desks now signal delta) = 1

unfoldable pub perform_all : Inner → List Action → Inner
perform_all inner [] = inner
perform_all inner (a ∷ as') = perform_all (perform inner a) as'

unfoldable pub observations_all : Inner → List Action → ℕ
observations_all inner [] = 0
observations_all inner (a ∷ as') = observations inner a + observations_all (perform inner a) as'

hear_value-IsLedger :
    (slack now : ℕ) (ono : Ono) (gain : Option ℤ) (lives : List Live) (latest : List (ℕ × ℤ))
    → All (IsLedger slack) lives
    → All (IsLedger slack) (hear_value now ono gain lives latest).0
unfolding hear_value
hear_value-IsLedger slack now ono none lives latest h = h
hear_value-IsLedger slack now ono (some gain) lives latest h =
    hear-IsLedger slack now ono gain 0 lives latest h

hear_event-IsLedger :
    (slack now : ℕ) (leader : String) (e : OcaEvent ℤ) (lives : List Live) (latest : List (ℕ × ℤ))
    → All (IsLedger slack) lives
    → All (IsLedger slack) (hear_event now leader e lives latest).0
unfolding hear_event
hear_event-IsLedger slack now leader e lives latest h =
    elim (Bool-cases (str_eq e.address.device_id leader)) [
      | inl ours ↦
          rw (ours, if◌then◌else◌)
            (hear_value-IsLedger slack now e.address.ono (as_f32 e.object.value) lives latest h)
      | inr other ↦ rw (other, if◌then◌else◌) h
    ]

hear_all-IsLedger :
    (slack now : ℕ) (leader : String) (es : List (OcaEvent ℤ)) (lives : List Live)
    (latest : List (ℕ × ℤ))
    → All (IsLedger slack) lives
    → All (IsLedger slack) (hear_all now leader es lives latest).0
unfolding hear_all
hear_all-IsLedger slack now leader [] lives latest h = h
hear_all-IsLedger slack now leader (e ∷ es) lives latest h =
    hear_all-IsLedger slack now leader es _ _
      (hear_event-IsLedger slack now leader e lives latest h)

on_events-IsOnBooks :
    (slack : ℕ) (desks : Desks) (now : ℕ) (batch : List (OcaEvent ℤ)) (inner : Inner)
    → IsOnBooks slack inner
    → IsOnBooks
        (slack + 99 * length (hear_all now inner.leader batch inner.live []).1)
        (on_events desks now batch inner)
unfolding on_events
on_events-IsOnBooks slack desks now batch inner h = observe_all-IsOnBooks desks slack _ _ (record {
  locked = h.locked;
  ledgers = hear_all-IsLedger slack now inner.leader batch inner.live [] h.ledgers;
})

weaken-IsOnBooks :
    (slack : ℕ) (inner : Inner) → IsOnBooks slack inner → IsOnBooks (slack + 99) inner
weaken-IsOnBooks slack inner h = record {
  locked = h.locked;
  ledgers = weaken-IsLedger slack inner.live h.ledgers;
}

expect_at-IsLedger :
    (slack now : ℕ) (gain : ℤ) (lives : List Live) (index : ℕ)
    → All (IsLedger slack) lives
    → All (IsLedger slack) (modify_at (expect now gain) lives index)
unfolding modify_at expect
expect_at-IsLedger slack now gain [] index h = tt
expect_at-IsLedger slack now gain (l ∷ ls) zero h = h
expect_at-IsLedger slack now gain (l ∷ ls) (suc index) h =
    (h.0, expect_at-IsLedger slack now gain ls index h.1)

module _ (desks : Desks) (now slack : ℕ) (gain : ℤ) (inner : Inner)
    (h : IsOnBooks slack inner) where
  set_written-IsOnBooks :
      (index : ℕ) (descriptors : Option (List OcaObjectDescriptor))
      (written : Result String (Unit {0}))
      → IsOnBooks
          (slack + 99)
          (or_same inner (set_written desks now gain inner index descriptors written))
  unfolding set_written
  set_written-IsOnBooks index none written = weaken-IsOnBooks slack inner h
  set_written-IsOnBooks index (some ds) (err e) = weaken-IsOnBooks slack inner h
  set_written-IsOnBooks index (some ds) (ok done) =
      observe-IsOnBooks desks slack _ index gain (record {
        locked = h.locked;
        ledgers = expect_at-IsLedger slack now gain inner.live index h.ledgers;
      })

  set_found-IsOnBooks :
      (found : Option (ℕ × Live))
      → IsOnBooks (slack + 99) (or_same inner (set_found desks now gain inner found))
  unfolding set_found
  set_found-IsOnBooks none = weaken-IsOnBooks slack inner h
  set_found-IsOnBooks (some (index, live)) = set_ono-IsOnBooks live.leader_ono
    where
      set_ono-IsOnBooks :
          (ono : Option Ono)
          → IsOnBooks (slack + 99) (or_same inner (set_ono desks now gain inner index live ono))
      set_ono-IsOnBooks none = unfold set_ono in weaken-IsOnBooks slack inner h
      set_ono-IsOnBooks (some ono) = unfold set_ono in set_written-IsOnBooks index _ _

nudge-IsOnBooks :
    (desks : Desks) (now slack : ℕ) (signal : String) (delta : ℤ) (inner : Inner)
    (current : Result Refusal ℤ)
    → IsOnBooks slack inner
    → IsOnBooks
        (slack + 99)
        (or_same inner (current >>= λ g. set_preamp desks now signal (g +ℤ delta) inner))
unfolding set_preamp
nudge-IsOnBooks desks now slack signal delta inner (err e) h = weaken-IsOnBooks slack inner h
nudge-IsOnBooks desks now slack signal delta inner (ok g) h =
    set_found-IsOnBooks desks now slack (g +ℤ delta) inner h (position signal inner.live 0)

retry_failed-IsOnBooks :
    (desks : Desks) (slack : ℕ) (inner : Inner)
    → IsOnBooks slack inner
    → IsOnBooks (slack + 99) (retry_failed desks inner)
unfolding retry_failed
retry_failed-IsOnBooks desks slack inner h =
    simp h.locked (retry_back-IsOnBooks desks slack inner (answering desks inner.live inner.down) h)

read_leader-IsOnBooks :
    (desks : Desks) (now slack : ℕ) (inner : Inner)
    → IsOnBooks slack inner
    → IsOnBooks (slack + 99) (read_leader desks now inner)
unfolding read_leader
read_leader-IsOnBooks desks now slack inner h = record {
  locked = h.locked;
  ledgers =
      rw h.locked
        (read_lives-IsLedger desks slack now inner.leader inner.live inner.down h.ledgers);
}

perform-IsOnBooks :
    (slack : ℕ) (inner : Inner) (a : Action)
    → IsOnBooks slack inner
    → IsOnBooks (slack + 99 * observations inner a) (perform inner a)
unfolding perform observations
perform-IsOnBooks slack inner (report desks now batch) h =
    on_events-IsOnBooks slack desks now batch inner h
perform-IsOnBooks slack inner (poll desks now) h = read_leader-IsOnBooks desks now slack inner h
perform-IsOnBooks slack inner (retry desks) h = retry_failed-IsOnBooks desks slack inner h
perform-IsOnBooks slack inner (set desks now signal gain) h =
    unfold set_preamp in
    set_found-IsOnBooks desks now slack gain inner h (position signal inner.live 0)
perform-IsOnBooks slack inner (nudge desks now signal delta) h =
    unfold nudge_preamp in
    nudge-IsOnBooks desks now slack signal delta inner (known_gain (position signal inner.live 0)) h

perform_all-IsOnBooks :
    (slack : ℕ) (inner : Inner) (actions : List Action)
    → IsOnBooks slack inner
    → IsOnBooks (slack + 99 * observations_all inner actions) (perform_all inner actions)
unfolding perform_all observations_all
perform_all-IsOnBooks slack inner [] h = let e : slack + 99 * 0 ≡ slack = omega arith in rw e h
perform_all-IsOnBooks slack inner (a ∷ rest) h =
    let n = observations inner a in
    let m = observations_all (perform inner a) rest in
    let e : slack + 99 * (n + m) ≡ slack + 99 * n + 99 * m = omega arith in
    rw e (
      perform_all-IsOnBooks (slack + 99 * n) (perform inner a) rest
        (perform-IsOnBooks slack inner a h))

-- From the moment of a lock on, whatever is reported, read, set, nudged and retried, and whatever
-- the desks answer: the engine stays locked, and for every follower of a signal with a reference
-- applied + owed is -(gain - reference), up to less than epsilon for every observation or
-- settlement of a signal so far; a signal that has no reference yet has nothing applied or owed,
-- up to the same bound.
pub ledger_kept :
    (desks : Desks) (now : ℕ) (inner : Inner) (actions : List Action)
    → IsOnBooks
        (99 * observations_all (lock desks now inner) actions)
        (perform_all (lock desks now inner) actions)
ledger_kept desks now inner actions =
    let n = 99 * observations_all (lock desks now inner) actions in
    let e : n ≡ 0 + n = omega arith in
    rw e (perform_all-IsOnBooks 0 (lock desks now inner) actions (lock-IsOnBooks desks now inner))
