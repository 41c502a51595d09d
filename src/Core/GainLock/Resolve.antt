-- ===== src/Core/GainLock/Resolve.antt =====
-- `resolve` of gain_lock.rs: the live table for the current leader, carrying over what is known of
-- the signals and followers that survive.
use dante_babel_box.Prelude.{
  ℕ, String, Bool, true, false, ◌&&◌, Option, none, some, List, [], ◌∷◌, str_eq, ◌==◌,
  if◌then◌else◌,
}
use dante_babel_box.Prelude.Int.{ℤ, pos}
use dante_babel_box.Oca.{Ono, OcaObjectDescriptor}
use dante_babel_box.Core.ChannelScheme.{Field, role, trim_role}
use dante_babel_box.Core.ChannelScheme.Descriptors.{find_settable}
use dante_babel_box.Core.GainLock.{Member, Signal, Problem, Follower, Live, Inner, Desks}

-- `members.iter().find(|m| m.device == leader).and_then(|m| m.preamp)`
unfoldable pub preamp_on : String → List Member → Option ℕ
preamp_on leader [] = none
preamp_on leader (m ∷ ms) = if str_eq m.device leader then m.preamp else preamp_on leader ms

-- The leader's gain object for the signal, or why there is none.
unfoldable pub find_leader_ono :
    Option (List OcaObjectDescriptor) → Option ℕ → Option Ono × Option Problem
find_leader_ono descriptors none = (none, some Problem.no_preamp_on_leader)
find_leader_ono none (some preamp) = (none, some Problem.leader_not_connected)
find_leader_ono (some descriptors) (some preamp) =
    elim (find_settable (role preamp Field.gain) descriptors) [
      | none ↦ (none, some Problem.leader_lacks_preamp)
      | some d ↦ (some d.ono, none)
    ]

unfoldable pub find_trim_ono : Option (List OcaObjectDescriptor) → ℕ → Option Ono × Option Problem
find_trim_ono none input = (none, some Problem.not_connected)
find_trim_ono (some descriptors) input = elim (find_settable (trim_role input) descriptors) [
  | none ↦ (none, some Problem.no_trim)
  | some d ↦ (some d.ono, none)
]

unfoldable pub find_live : String → List Live → Option Live
find_live name [] = none
find_live name (l ∷ ls) = if str_eq l.name name then some l else find_live name ls

unfoldable pub find_follower : String → ℕ → List Follower → Option Follower
find_follower device input [] = none
find_follower device input (f ∷ fs) =
    if str_eq f.device device && f.input == input then some f else find_follower device input fs

abbrev pub carried : Option Live → String → ℕ → Option Follower
carried none device input = none
carried (some p) device input = find_follower device input p.followers

abbrev pub carried_applied : Option Follower → ℤ
carried_applied none = pos 0
carried_applied (some f) = f.applied

abbrev pub carried_owed : Option Follower → ℤ
carried_owed none = pos 0
carried_owed (some f) = f.owed

-- The member's follower: the leader and a member without an input have none.
unfoldable pub resolve_followers : Desks → String → Option Live → List Member → List Follower
unfolding find_trim_ono
resolve_followers desks leader previous [] = []
resolve_followers desks leader previous (m ∷ ms) =
    let rest = resolve_followers desks leader previous ms in
    if str_eq m.device leader then rest else elim m.input [
      | none ↦ rest
      | some input ↦
          let found = find_trim_ono (desks.describe m.device) input in
          let old = carried previous m.device input in
          record {
            device = m.device;
            input = input;
            ono = found.0;
            applied = carried_applied old;
            owed = carried_owed old;
            error = found.1;
          }
          ∷ rest
    ]

-- `Option<u16>` and `Option<Ono>` compared.
abbrev pub option_eq : Option ℕ → Option ℕ → Bool
option_eq none none = true
option_eq none (some b) = false
option_eq (some a) none = false
option_eq (some a) (some b) = a == b

-- `previous.filter(|_| same_leader)`: what the old leader reported does not carry over.
abbrev pub same_leader : Option Live → Option Ono → Option ℕ → Option Live
same_leader none ono preamp = none
same_leader (some p) ono preamp =
    if option_eq p.leader_ono ono && option_eq p.leader_preamp preamp then some p else none

unfoldable pub resolve_signal : Desks → String → List Live → Signal → Live
unfolding find_leader_ono resolve_followers preamp_on
resolve_signal desks leader lives signal =
    let previous = find_live signal.name lives in
    let preamp = preamp_on leader signal.members in
    let found = find_leader_ono (desks.describe leader) preamp in
    let kept = same_leader previous found.0 preamp in
    record {
      name = signal.name;
      leader_preamp = preamp;
      leader_ono = found.0;
      gain = elim kept [ none ↦ none | some p ↦ p.gain ];
      reference = elim kept [ none ↦ none | some p ↦ p.reference ];
      problem = found.1;
      followers = resolve_followers desks leader previous signal.members;
      expected = elim kept [ none ↦ [] | some p ↦ p.expected ];
    }

unfoldable pub resolve_signals : Desks → String → List Live → List Signal → List Live
unfolding resolve_signal
resolve_signals desks leader lives [] = []
resolve_signals desks leader lives (s ∷ ss) =
    resolve_signal desks leader lives s ∷ resolve_signals desks leader lives ss

unfoldable pub resolve : Desks → Inner → Inner
unfolding resolve_signals
resolve desks inner = record inner {
  live = resolve_signals desks inner.leader inner.live inner.signals;
}
