-- ===== src/Core/GainLock/Config.antt =====
-- `GainLockConfig::validate` of gain_lock.rs: the table is checked against itself and the device
-- ids. An error text is a constructor of `ConfigError`; the sets of names and of trims are lists.
pub mod Soundness
use dante_babel_box.Prelude.{
  ap, ℕ, String, Bool, true, false, ◌&&◌, ◌||◌, not, Option, none, some, List, [], ◌∷◌, ◌++◌, ◌≡◌,
  ◌↔◌, ◌∙◌, sym, refl, arith, All, str_eq, ◌==◌, if◌then◌else◌, Bool-cases, inl, inr, ◌⊎◌, Result,
  ok, err, ◌>>=◌,
}
use mathlib.Core.Path.{subst, ap}
use dante_babel_box.Core.GainLock.{Member, Signal, GainLockConfig}
use dante_babel_box.Core.GainLock.Settle.{is_down}
use dante_babel_box.Core.GainLock.Engine.{leads}

pub data ConfigError : Type 0 where
  leader_unknown : String → ConfigError
  defined_twice : String → ConfigError
  device_unknown : String → String → ConfigError
  needs_preamp_or_input : String → String → ConfigError
  in_two_signals : ℕ → String → ConfigError
  no_preamp_on_leader : String → String → ConfigError

abbrev pub Trims : Type 0
Trims = List (String × ℕ)

unfoldable pub has_trim : Trims → String → ℕ → Bool
has_trim [] device input = false
has_trim ((d, i) ∷ ts) device input = str_eq d device && i == input || has_trim ts device input

-- `member.preamp.is_none() && member.input.is_none()`
abbrev pub is_useless : Member → Bool
is_useless m = elim m.preamp [
  | some p ↦ false
  | none ↦ elim m.input [ none ↦ true | some i ↦ false ]
]

-- `trims.insert`, for a member with an input.
unfoldable pub check_trim : String → Option ℕ → Trims → Result ConfigError Trims
check_trim device none trims = ok trims
check_trim device (some input) trims =
    if has_trim trims device input
    then err (ConfigError.in_two_signals input device)
    else ok ((device, input) ∷ trims)

unfoldable pub check_member : (String → Bool) → String → Member → Trims → Result ConfigError Trims
unfolding check_trim
check_member is_device signal m trims =
    if not (is_device m.device)
    then err (ConfigError.device_unknown signal m.device)
    else if is_useless m
    then err (ConfigError.needs_preamp_or_input signal m.device)
    else check_trim m.device m.input trims

unfoldable pub check_members :
    (String → Bool) → String → List Member → Trims → Result ConfigError Trims
unfolding check_member
check_members is_device signal [] trims = ok trims
check_members is_device signal (m ∷ ms) trims = do
  trims' ← check_member is_device signal m trims
  check_members is_device signal ms trims'

unfoldable pub check_leads : String → Signal → Trims → Result ConfigError Trims
check_leads leader s trims =
    if leads leader s.members then ok trims else err (ConfigError.no_preamp_on_leader s.name leader)

unfoldable pub check_signal :
    (String → Bool) → String → List String → Signal → Trims → Result ConfigError Trims
unfolding check_members check_leads
check_signal is_device leader names s trims =
    if is_down names s.name
    then err (ConfigError.defined_twice s.name)
    else check_members is_device s.name s.members trims >>= check_leads leader s

unfoldable pub check_signals :
    (String → Bool) → String → List String → List Signal → Trims → Result ConfigError Trims
unfolding check_signal
check_signals is_device leader names [] trims = ok trims
check_signals is_device leader names (s ∷ ss) trims = do
  trims' ← check_signal is_device leader names s trims
  check_signals is_device leader (s.name ∷ names) ss trims'

unfoldable pub validate : (String → Bool) → GainLockConfig → Result ConfigError (Unit {0})
unfolding check_signals
validate is_device config =
    if not (is_device config.leader)
    then err (ConfigError.leader_unknown config.leader)
    else check_signals is_device config.leader [] config.signals [] >>= λ trims. ok tt
