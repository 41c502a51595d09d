-- ===== src/Core/GainLock/Engine.antt =====
-- The operations of the engine in gain_lock.rs. Each holds the engine's mutex throughout, or is
-- taken as if it did; `now` is the instant of the call.
use dante_babel_box.Oca.{Ono, OcaObjectDescriptor}
use dante_babel_box.Prelude.{
  ◌>>=◌, ok_or, ℕ, zero, suc, ◌+◌, String, Bool, true, false, ◌&&◌, ◌||◌, not, Option, none, some,
  List, [], ◌∷◌, str_eq, if◌then◌else◌, Result, ok, err, map,
}
use dante_babel_box.Prelude.Int.{ℤ, pos, ◌+ℤ◌}
use dante_babel_box.Core.GainLock.{
  Member, Signal, GainLockConfig, Problem, Follower, Live, Inner, Desks, expect,
}
use dante_babel_box.Core.GainLock.Settle.{mark_down, observe_live}
use dante_babel_box.Core.GainLock.Resolve.{resolve}

-- Why an operation is refused.
pub data Refusal : Type 0 where
  unlock_first cannot_lead no_signal no_preamp leader_away gain_unknown : Refusal
  signal_problem : Problem → Refusal
  device_error : String → Refusal

-- The interval of the poll is the task's, which decides when `read_leader` is called.
unfoldable pub new : Desks → GainLockConfig → Inner
new desks config = resolve desks (record {
  leader = config.leader;
  locked = false;
  signals = config.signals;
  live = [];
  down = [];
})

-- `observe` on `live[index]`; the code only passes indices of the table.
unfoldable pub observe_at : Desks → Bool → List String → List Live → ℕ → ℤ → List Live × List String
observe_at desks locked down [] index gain = ([], [])
observe_at desks locked down (l ∷ ls) zero gain =
    let (l', failed) = observe_live desks locked down l gain in (l' ∷ ls, failed)
observe_at desks locked down (l ∷ ls) (suc index) gain =
    let (ls', failed) = observe_at desks locked down ls index gain in (l ∷ ls', failed)

unfoldable pub observe : Desks → Inner → ℕ → ℤ → Inner
unfolding observe_at mark_down
observe desks inner index gain =
    let (lives, failed) = observe_at desks inner.locked inner.down inner.live index gain in
    record inner { live = lives; down = mark_down inner.down failed }

-- A follower at the start of a lock.
unfoldable pub reset : Follower → Follower
reset f = record f { applied = pos 0; owed = pos 0; error = none }

-- The end of a signal's turn in `lock`: the leader's gain becomes the reference, read anew or as
-- last reported.
unfoldable pub lock_read : ℕ → Live → Option ℤ → Result String ℤ → Live
unfolding expect
lock_read now live previous (ok gain) =
    let read = expect now gain (record live { gain = some gain }) in
    record read { reference = read.gain }
lock_read now live (some previous) (err e) = record live { reference = live.gain }
lock_read now live none (err e) = record live { problem = some (Problem.not_armed e) }

unfoldable pub lock_ono : Desks → ℕ → String → Live → Option Ono → Live
unfolding lock_read
lock_ono desks now leader live none = live
lock_ono desks now leader live (some ono) = lock_read now live live.gain (desks.read leader ono)

unfoldable pub lock_live : Desks → ℕ → String → Live → Live
unfolding lock_ono reset
lock_live desks now leader live =
    lock_ono desks now leader
      (record live { followers = map reset live.followers; reference = none }) live.leader_ono

unfoldable pub lock : Desks → ℕ → Inner → Inner
unfolding lock_live
lock desks now inner =
    let fresh = resolve desks inner in
    record fresh {
      live = map (lock_live desks now fresh.leader) fresh.live;
      locked = true;
      down = [];
    }

unfoldable pub unlock : Inner → Inner
unlock inner = record inner { locked = false }

abbrev has_preamp : Option ℕ → Bool
has_preamp none = false
has_preamp (some preamp) = true

-- `signals.iter().any(|s| s.members.iter().any(|m| m.device == device && m.preamp.is_some()))`
unfoldable pub leads : String → List Member → Bool
leads device [] = false
leads device (m ∷ ms) = str_eq m.device device && has_preamp m.preamp || leads device ms

unfoldable pub leads_something : String → List Signal → Bool
unfolding leads
leads_something device [] = false
leads_something device (s ∷ ss) = leads device s.members || leads_something device ss

unfoldable pub set_leader : Desks → String → Inner → Result Refusal Inner
unfolding leads_something
set_leader desks device inner =
    if inner.locked
    then err Refusal.unlock_first
    else if not (leads_something device inner.signals)
    then err Refusal.cannot_lead
    else ok (resolve desks (record inner { leader = device }))

-- `live.iter().position(|l| l.name == signal)`, from the index at hand.
unfoldable pub position : String → List Live → ℕ → Option (ℕ × Live)
position name [] index = none
position name (l ∷ ls) index =
    if str_eq l.name name then some (index, l) else position name ls (index + 1)

-- `live[index] = update(live[index])`
unfoldable pub modify_at : (Live → Live) → List Live → ℕ → List Live
modify_at f [] index = []
modify_at f (l ∷ ls) zero = f l ∷ ls
modify_at f (l ∷ ls) (suc index) = l ∷ modify_at f ls index

unfoldable pub missing_preamp : Live → Refusal
missing_preamp live = elim live.problem [
  | none ↦ Refusal.no_preamp
  | some p ↦ Refusal.signal_problem p
]

-- A desk that confirms the write reports the value back, so it is expected.
unfoldable pub set_written :
    Desks
    → ℕ
    → ℤ
    → Inner
    → ℕ
    → Option (List OcaObjectDescriptor)
    → Result String (Unit {0})
    → Result Refusal Inner
unfolding modify_at expect observe
set_written desks now gain inner index none written = err Refusal.leader_away
set_written desks now gain inner index (some descriptors) (err e) = err (Refusal.device_error e)
set_written desks now gain inner index (some descriptors) (ok done) = ok (
    observe desks (record inner { live = modify_at (expect now gain) inner.live index }) index gain)

unfoldable pub set_ono : Desks → ℕ → ℤ → Inner → ℕ → Live → Option Ono → Result Refusal Inner
unfolding set_written missing_preamp
set_ono desks now gain inner index live none = err (missing_preamp live)
set_ono desks now gain inner index live (some ono) =
    set_written desks now gain inner index (desks.describe inner.leader)
      (desks.write inner.leader ono gain)

unfoldable pub set_found : Desks → ℕ → ℤ → Inner → Option (ℕ × Live) → Result Refusal Inner
unfolding set_ono
set_found desks now gain inner none = err Refusal.no_signal
set_found desks now gain inner (some (index, live)) =
    set_ono desks now gain inner index live live.leader_ono

unfoldable pub set_preamp : Desks → ℕ → String → ℤ → Inner → Result Refusal Inner
unfolding position set_found
set_preamp desks now signal gain inner =
    set_found desks now gain inner (position signal inner.live 0)

unfoldable pub known_gain : Option (ℕ × Live) → Result Refusal ℤ
known_gain none = err Refusal.no_signal
known_gain (some (index, live)) = ok_or live.gain Refusal.gain_unknown

-- The mutex is released between the reading of the gain and the setting.
unfoldable pub nudge_preamp : Desks → ℕ → String → ℤ → Inner → Result Refusal Inner
unfolding set_preamp known_gain
nudge_preamp desks now signal delta inner = do
  current ← known_gain (position signal inner.live 0)
  set_preamp desks now signal (current +ℤ delta) inner
