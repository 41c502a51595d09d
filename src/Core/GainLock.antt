-- ===== src/Core/GainLock.antt =====
-- crates/core/src/gain_lock.rs: the state of the gain lock. Decibels are whole millionths of a dB,
-- so that sums are exact; `EPSILON_DB` is a hundred of them. An instant is a number of milliseconds.
-- The desks behind the router, with their timeouts, are the parameter `Desks`; an error text is a
-- constructor of `Problem`.
pub mod Config
pub mod Settle
pub mod Engine
pub mod Listening
pub mod Resolve
pub mod Ledger
pub mod Moves
pub mod Echoes
pub mod Locking
pub mod Steps
pub mod Probes
pub mod Comebacks
pub mod Retries
pub mod Runs
mod Example
use dante_babel_box.Prelude.{
  ℕ, zero, suc, ◌+◌, ◌-◌, String, Bool, true, false, Option, none, some, List, [], ◌∷◌, ◌++◌, ltb,
  if◌then◌else◌, Result,
}
use dante_babel_box.Prelude.Int.{ℤ, ◌-ℤ◌, abs}
use dante_babel_box.Oca.{Ono, OcaObjectDescriptor}

-- `EPSILON_DB` = 1e-4 dB
abbrev pub epsilon_db : ℕ
epsilon_db = 100

-- `ECHO_TTL` = 2 s
abbrev pub echo_ttl : ℕ
echo_ttl = 2000

pub record Member : Type 0 where
  pub device : String
  pub preamp : Option ℕ
  pub input : Option ℕ

pub record Signal : Type 0 where
  pub name : String
  pub members : List Member

pub record GainLockConfig : Type 0 where
  pub leader : String
  pub signals : List Signal
  pub poll_ms : Option ℕ
  pub lock_on_start : Bool

pub data Problem : Type 0 where
  not_answering not_connected no_trim : Problem
  no_preamp_on_leader leader_not_connected leader_lacks_preamp : Problem
  not_armed : String → Problem
  failed : String → Problem

pub record Follower : Type 0 where
  pub device : String
  pub input : ℕ
  pub ono : Option Ono
  pub applied : ℤ
  pub owed : ℤ
  pub error : Option Problem

pub record Live : Type 0 where
  pub name : String
  pub leader_preamp : Option ℕ
  pub leader_ono : Option Ono
  pub gain : Option ℤ
  pub reference : Option ℤ
  pub problem : Option Problem
  pub followers : List Follower
  pub expected : List (ℤ × ℕ)

pub record Inner : Type 0 where
  pub leader : String
  pub locked : Bool
  pub signals : List Signal
  pub live : List Live
  pub down : List String

-- What the engine asks of the devices registered with the router: `describe` is `none` for a device
-- that is not registered; `nudge`, `read` and `write` answer within their timeouts or with an error.
pub record Desks : Type 0 where
  pub describe : String → Option (List OcaObjectDescriptor)
  pub nudge : String → Ono → ℤ → Result String ℤ
  pub read : String → Ono → Result String ℤ
  pub write : String → Ono → ℤ → Result String (Unit {0})

-- `x.abs() < EPSILON_DB`
abbrev pub negligible : ℤ → Bool
negligible x = ltb (abs x) epsilon_db

-- `Live::expect`
unfoldable pub expect : ℕ → ℤ → Live → Live
expect now gain live = record live { expected = live.expected ++ (gain, now) ∷ [] }

-- `retain(|(_, at)| at.elapsed() < ECHO_TTL)`
unfoldable pub retain_recent : ℕ → List (ℤ × ℕ) → List (ℤ × ℕ)
retain_recent now [] = []
retain_recent now ((v, at) ∷ es) =
    let rest = retain_recent now es in if ltb (now - at) echo_ttl then (v, at) ∷ rest else rest

-- What follows the first entry within epsilon of `gain`: `position`, then `drain(..=i)`.
unfoldable pub after_echo : ℤ → List (ℤ × ℕ) → Option (List (ℤ × ℕ))
after_echo gain [] = none
after_echo gain ((v, at) ∷ es) = if negligible (v -ℤ gain) then some es else after_echo gain es

-- `Live::is_expected`: an echo takes the entries up to it, any other report clears them.
unfoldable pub is_expected : ℕ → ℤ → Live → Live × Bool
unfolding retain_recent after_echo
is_expected now gain live = elim (after_echo gain (retain_recent now live.expected)) [
  | none ↦ (record live { expected = [] }, false)
  | some rest ↦ (record live { expected = rest }, true)
]
