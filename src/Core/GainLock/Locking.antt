-- ===== src/Core/GainLock/Locking.antt =====
-- `lock` and `set_leader` of gain_lock.rs: what a lock starts from, and what an election carries
-- over.
use dante_babel_box.Prelude.{
  ap, ℕ, ◌^◌, ◌≤◌, ◌<◌, String, true, false, Option, none, some, List, [], ◌∷◌, ◌≡◌, refl, arith,
  All, if◌then◌else◌, Bool-cases, inl, inr, ◌⊎◌, Result, ok, err, map, str_eq, eq_iff,
}
use dante_babel_box.Prelude.Int.{ℤ, pos}
use dante_babel_box.Oca.{Ono}
use dante_babel_box.Core.ChannelScheme.{descriptor, descriptors_for_channels, gain_ono}
use dante_babel_box.Core.ChannelScheme.Descriptors.{find_gain}
use dante_babel_box.Core.GainLock.{Signal, Follower, Live, Inner, Desks, expect}
use dante_babel_box.Core.GainLock.Resolve.{
  same_leader, option_eq, preamp_on, find_leader_ono, find_live, resolve_signal, resolve,
}
use dante_babel_box.Core.GainLock.Engine.{
  reset, lock_read, lock_ono, lock_live, lock, leads_something, set_leader, Refusal,
}

-- Nothing applied, nothing owed, and no error.
abbrev pub IsReset : Follower → Type 0
IsReset f = (f.applied ≡ pos 0) × (f.owed ≡ pos 0) × (f.error ≡ none)

-- Every follower is reset, and the reference is the gain that is known, or there is none.
pub record IsFresh (live : Live) : Type 0 where
  pub followers : All IsReset live.followers
  pub armed : ((live.reference ≡ live.gain) ⊎ (live.reference ≡ none))

reset-All : (fs : List Follower) → All IsReset (map reset fs)
unfolding reset
reset-All [] = tt
reset-All (f ∷ fs) = ((refl, refl, refl), reset-All fs)

lock_read-IsFresh :
    (now : ℕ) (live : Live) (previous : Option ℤ) (answer : Result String ℤ)
    → All IsReset live.followers
    → live.reference ≡ none
    → IsFresh (lock_read now live previous answer)
unfolding lock_read expect
lock_read-IsFresh now live previous (ok gain) h e = record { followers = h; armed = inl refl }
lock_read-IsFresh now live (some previous) (err x) h e = record { followers = h; armed = inl refl }
lock_read-IsFresh now live none (err x) h e = record { followers = h; armed = inr e }

lock_ono-IsFresh :
    (desks : Desks) (now : ℕ) (leader : String) (live : Live) (ono : Option Ono)
    → All IsReset live.followers
    → live.reference ≡ none
    → IsFresh (lock_ono desks now leader live ono)
unfolding lock_ono
lock_ono-IsFresh desks now leader live none h e = record { followers = h; armed = inr e }
lock_ono-IsFresh desks now leader live (some ono) h e =
    lock_read-IsFresh now live live.gain (desks.read leader ono) h e

lock_lives-IsFresh :
    (desks : Desks) (now : ℕ) (leader : String) (lives : List Live)
    → All IsFresh (map (lock_live desks now leader) lives)
unfolding lock_live
lock_lives-IsFresh desks now leader [] = tt
lock_lives-IsFresh desks now leader (l ∷ ls) = (
  lock_ono-IsFresh desks now leader
      (record l { followers = map reset l.followers; reference = none }) l.leader_ono
      (reset-All l.followers) refl,
  lock_lives-IsFresh desks now leader ls,
)

-- Whatever the engine was doing, and whatever the desks answer, a lock leaves it locked with the
-- same leader and signals and no desk taken for down. Every follower starts with nothing applied,
-- nothing owed and no error (one that has no trim object included), and every signal's reference is
-- its known gain, or there is none.
pub lock-IsFresh :
    (desks : Desks) (now : ℕ) (inner : Inner)
    → ((lock desks now inner).locked ≡ true)
      × ((lock desks now inner).leader ≡ inner.leader)
      × ((lock desks now inner).signals ≡ inner.signals)
      × ((lock desks now inner).down ≡ [])
      × All IsFresh (lock desks now inner).live
unfolding lock resolve
lock-IsFresh desks now inner =
    (refl, refl, refl, refl, lock_lives-IsFresh desks now inner.leader (resolve desks inner).live)

-- An election either is refused, because the engine is locked or the device has no preamp in any
-- signal, or makes the device the leader, and leaves the engine unlocked with its signals.
pub set_leader-outcome :
    (desks : Desks) (device : String) (inner : Inner)
    → ((inner.locked ≡ true) × (set_leader desks device inner ≡ err Refusal.unlock_first))
      ⊎ ((inner.locked ≡ false)
          × (leads_something device inner.signals ≡ false)
          × (set_leader desks device inner ≡ err Refusal.cannot_lead))
      ⊎ ((elected : Inner) × (set_leader desks device inner ≡ ok elected)
          × (leads_something device inner.signals ≡ true)
          × (elected.leader ≡ device)
          × (elected.locked ≡ false)
          × (elected.signals ≡ inner.signals)
          × (elected.down ≡ inner.down))
unfolding set_leader resolve
set_leader-outcome desks device inner = elim (Bool-cases inner.locked) [
  | inl on ↦ inl (on, simp on refl)
  | inr off ↦ elim (Bool-cases (leads_something device inner.signals)) [
    | inr never ↦ inr (inl (off, never, simp (off, never) refl))
    | inl leads ↦ inr (
        inr (
          resolve desks (record inner { leader = device }),
          simp (off, leads) refl,
          leads,
          refl,
          off,
          refl,
          refl,
        ))
  ]
]

find_leader_ono-scheme :
    (channels preamp : ℕ)
    → 1 ≤ preamp
    → preamp ≤ channels
    → channels < 2 ^ 16
    → (find_leader_ono (some (descriptors_for_channels channels)) (some preamp)).0
      ≡ some (gain_ono preamp)
unfolding find_leader_ono descriptor
find_leader_ono-scheme channels preamp l u c =
    ground (arith, find_gain channels preamp l (omega arith) c)

resolve_signal-kept :
    (desks : Desks) (leader : String) (lives : List Live) (signal : Signal) (p : Live)
    → find_live signal.name lives ≡ some p
    → option_eq p.leader_ono
        (find_leader_ono (desks.describe leader) (preamp_on leader signal.members)).0
      ≡ true
    → option_eq p.leader_preamp (preamp_on leader signal.members) ≡ true
    → (resolve_signal desks leader lives signal).gain ≡ p.gain
unfolding resolve_signal
resolve_signal-kept desks leader lives signal p found ono preamp =
    ap (λ o. elim o as (λ x. Option ℤ) [ none ↦ none | some q ↦ q.gain ]) same
  where
    same :
        same_leader
          (find_live signal.name lives)
          (find_leader_ono (desks.describe leader) (preamp_on leader signal.members)).0
          (preamp_on leader signal.members)
        ≡ some p
    same = simp (found, ono, preamp) refl

option_eq_refl : (o : Option ℕ) → option_eq o o ≡ true
option_eq_refl none = refl
option_eq_refl (some n) = ground arith

-- The desk describes `channels` channels of the shared scheme, `preamp` among them.
pub record HasPreamp (desks : Desks) (device : String) (channels preamp : ℕ) : Type 0 where
  pub described : desks.describe device ≡ some (descriptors_for_channels channels)
  pub first : 1 ≤ preamp
  pub last : preamp ≤ channels
  pub small : channels < 2 ^ 16

-- Two desks of the shared channel scheme have a signal on the same preamp number. The table is
-- resolved for the one, which reports a gain; then it is resolved for the other as leader: the gain
-- of the first desk is taken for that of the second.
pub election_inherits :
    (desks : Desks) (old new : String) (lives : List Live) (signal : Signal) (preamp n m : ℕ)
    (gain : ℤ)
    → preamp_on old signal.members ≡ some preamp
    → preamp_on new signal.members ≡ some preamp
    → HasPreamp desks old n preamp
    → HasPreamp desks new m preamp
    → (resolve_signal desks new
        (record (resolve_signal desks old lives signal) { gain = some gain } ∷ [])
        signal).gain
      ≡ some gain
election_inherits desks old new lives signal preamp n m gain p q h k =
    resolve_signal-kept desks new (before ∷ []) signal before
      (unfold find_live resolve_signal in rw (same_name, if◌then◌else◌) refl)
      (unfold resolve_signal in
        rw
          (
            p,
            q,
            h.described,
            k.described,
            find_leader_ono-scheme n preamp h.first h.last h.small,
            find_leader_ono-scheme m preamp k.first k.last k.small,
          )
          (option_eq_refl (some (gain_ono preamp))))
      (unfold resolve_signal in rw (p, q) (option_eq_refl (some preamp)))
  where
    before : Live
    before = record (resolve_signal desks old lives signal) { gain = some gain }

    same_name : str_eq signal.name signal.name ≡ true
    same_name = (eq_iff signal.name signal.name).1 refl
