-- ===== src/Core/GainLock/Steps.antt =====
-- The books of gain_lock.rs, one step of the engine at a time.
use dante_babel_box.Prelude.{
  ℕ, zero, suc, ◌+◌, ◌*◌, String, Bool, true, false, Option, none, some, List, [], ◌∷◌, ◌≡◌, refl,
  arith, All, All-imp, length, if◌then◌else◌, inl, inr, Result, ok, err, map, Option-cases,
}
use dante_babel_box.Prelude.Int.{+ℤ_parts, ℤ, -ℤ_parts}
use dante_babel_box.Oca.{Ono}
use dante_babel_box.Core.GainLock.{
  retain_recent, after_echo, Follower, Live, Inner, Desks, expect, is_expected,
}
use dante_babel_box.Core.GainLock.Settle.{is_down}
use dante_babel_box.Core.GainLock.Resolve.{resolve, option_eq}
use dante_babel_box.Core.GainLock.Engine.{
  lock_read, lock_ono, observe_at, observe, reset, lock_live, lock,
}
use dante_babel_box.Core.GainLock.Listening.{
  retry_back, read_answer, hear, observe_all, read_live, read_lives, without_all, settle_lives,
}
use dante_babel_box.Core.GainLock.Ledger.{
  Books, IsLedger, observe_live-IsLedger, settle_list-Books, Books-weaken,
}

-- Locked, with every signal on its books.
pub record IsOnBooks (slack : ℕ) (inner : Inner) : Type 0 where
  pub locked : inner.locked ≡ true
  pub ledgers : All (IsLedger slack) inner.live

reset-Books : (gain : Option ℤ) (fs : List Follower) → Books 0 gain gain (map reset fs)
unfolding reset
reset-Books none [] = tt
reset-Books none (f ∷ fs) = (omega (arith, +ℤ_parts), reset-Books none fs)
reset-Books (some g) [] = tt
reset-Books (some g) (f ∷ fs) = (omega (arith, +ℤ_parts, -ℤ_parts), reset-Books (some g) fs)

reset-Books_unarmed : (gain : Option ℤ) (fs : List Follower) → Books 0 none gain (map reset fs)
unfolding reset
reset-Books_unarmed gain [] = tt
reset-Books_unarmed gain (f ∷ fs) = (omega (arith, +ℤ_parts), reset-Books_unarmed gain fs)

module _ (desks : Desks) (now : ℕ) where
  lock_read-IsLedger :
      (live : Live) (previous : Option ℤ) (answer : Result String ℤ)
      → live.reference ≡ none
      → (fs : List Follower) → live.followers ≡ map reset fs
      → IsLedger 0 (lock_read now live previous answer)
  unfolding lock_read expect
  lock_read-IsLedger live previous (ok gain) e fs k = rw k (reset-Books (some gain) fs)
  lock_read-IsLedger live (some previous) (err x) e fs k = rw k (reset-Books live.gain fs)
  lock_read-IsLedger live none (err x) e fs k = rw (e, k) (reset-Books_unarmed live.gain fs)

  lock_ono-IsLedger :
      (leader : String) (live : Live) (ono : Option Ono)
      → live.reference ≡ none
      → (fs : List Follower) → live.followers ≡ map reset fs
      → IsLedger 0 (lock_ono desks now leader live ono)
  unfolding lock_ono
  lock_ono-IsLedger leader live none e fs k = rw (e, k) (reset-Books_unarmed live.gain fs)
  lock_ono-IsLedger leader live (some ono) e fs k =
      lock_read-IsLedger live live.gain (desks.read leader ono) e fs k

  lock_lives-IsLedger :
      (leader : String) (lives : List Live)
      → All (IsLedger 0) (map (lock_live desks now leader) lives)
  unfolding lock_live
  lock_lives-IsLedger leader [] = tt
  lock_lives-IsLedger leader (l ∷ ls) = (
    lock_ono-IsLedger leader (record l { followers = map reset l.followers; reference = none })
        l.leader_ono refl l.followers refl,
    lock_lives-IsLedger leader ls,
  )

  -- A fresh lock has nothing on its books.
  pub lock-IsOnBooks : (inner : Inner) → IsOnBooks 0 (lock desks now inner)
  unfolding lock
  lock-IsOnBooks inner = record {
    locked = refl;
    ledgers = lock_lives-IsLedger (resolve desks inner).leader (resolve desks inner).live;
  }

pub weaken-IsLedger :
    (slack : ℕ) (lives : List Live) → All (IsLedger slack) lives → All (IsLedger (slack + 99)) lives
weaken-IsLedger slack lives h =
    All-imp _ _ lives (λ l k. Books-weaken slack l.reference l.gain l.followers k) h

module _ (desks : Desks) (slack : ℕ) where
  observe_at-IsLedger :
      (down : List String) (lives : List Live) (index : ℕ) (gain : ℤ)
      → All (IsLedger slack) lives
      → All (IsLedger (slack + 99)) (observe_at desks true down lives index gain).0
  unfolding observe_at
  observe_at-IsLedger down [] index gain h = tt
  observe_at-IsLedger down (l ∷ ls) zero gain h =
      (observe_live-IsLedger slack desks down l gain h.0, weaken-IsLedger slack ls h.1)
  observe_at-IsLedger down (l ∷ ls) (suc index) gain h = (
    Books-weaken slack l.reference l.gain l.followers h.0,
    observe_at-IsLedger down ls index gain h.1,
  )

  pub observe-IsOnBooks :
      (inner : Inner) (index : ℕ) (gain : ℤ)
      → IsOnBooks slack inner
      → IsOnBooks (slack + 99) (observe desks inner index gain)
  unfolding observe
  observe-IsOnBooks inner index gain h = record {
    locked = h.locked;
    ledgers = rw h.locked (observe_at-IsLedger inner.down inner.live index gain h.ledgers);
  }

  read_answer-IsLedger :
      (now : ℕ) (down : List String) (l : Live) (answer : Result String ℤ)
      → IsLedger slack l
      → IsLedger (slack + 99) (read_answer desks now true down l answer).0
  unfolding read_answer expect
  read_answer-IsLedger now down l (err e) h = Books-weaken slack l.reference l.gain l.followers h
  read_answer-IsLedger now down l (ok gain) h =
      observe_live-IsLedger slack desks down (expect now gain l) gain h

  read_live-IsLedger :
      (now : ℕ) (leader : String) (down : List String) (l : Live) (ono : Option Ono)
      → IsLedger slack l
      → IsLedger (slack + 99) (read_live desks now leader true down l ono).0
  unfolding read_live
  read_live-IsLedger now leader down l none h = Books-weaken slack l.reference l.gain l.followers h
  read_live-IsLedger now leader down l (some ono) h =
      read_answer-IsLedger now down l (desks.read leader ono) h

  pub read_lives-IsLedger :
      (now : ℕ) (leader : String) (lives : List Live) (down : List String)
      → All (IsLedger slack) lives
      → All (IsLedger (slack + 99)) (read_lives desks now leader true down lives).0
  unfolding read_lives
  read_lives-IsLedger now leader [] down h = tt
  read_lives-IsLedger now leader (l ∷ ls) down h = (
    read_live-IsLedger now leader down l l.leader_ono h.0,
    read_lives-IsLedger now leader ls _ h.1,
  )

  settle_lives-IsLedger :
      (back down : List String) (lives : List Live)
      → All (IsLedger slack) lives
      → All (IsLedger (slack + 99)) (settle_lives desks back down lives).0
  unfolding settle_lives
  settle_lives-IsLedger back down [] h = tt
  settle_lives-IsLedger back down (l ∷ ls) h = (
    settle_list-Books slack l.reference l.gain desks (λ f. is_down back f.device) down l.followers
        h.0,
    settle_lives-IsLedger back down ls h.1,
  )

  pub retry_back-IsOnBooks :
      (inner : Inner) (back : List String)
      → IsOnBooks slack inner
      → IsOnBooks (slack + 99) (retry_back desks inner back)
  unfolding retry_back
  retry_back-IsOnBooks inner [] h = record {
    locked = h.locked;
    ledgers = weaken-IsLedger slack inner.live h.ledgers;
  }
  retry_back-IsOnBooks inner (b ∷ bs) h = record {
    locked = h.locked;
    ledgers = settle_lives-IsLedger (b ∷ bs) (without_all (b ∷ bs) inner.down) inner.live h.ledgers;
  }

pub observe_all-IsOnBooks :
    (desks : Desks) (slack : ℕ) (inner : Inner) (latest : List (ℕ × ℤ))
    → IsOnBooks slack inner
    → IsOnBooks (slack + 99 * length latest) (observe_all desks inner latest)
unfolding observe_all
observe_all-IsOnBooks desks slack inner [] h =
    let e : slack + 99 * 0 ≡ slack = omega arith in rw e h
observe_all-IsOnBooks desks slack inner ((i, g) ∷ rest) h =
    let e : slack + 99 * suc (length rest) ≡ slack + 99 + 99 * length rest = omega arith in
    rw e (
      observe_all-IsOnBooks desks (slack + 99) (observe desks inner i g) rest
        (observe-IsOnBooks desks slack inner i g h))

heard-IsLedger :
    (slack now : ℕ) (gain : ℤ) (mine : Bool) (l : Live)
    → IsLedger slack l
    → IsLedger slack (if mine then (is_expected now gain l).0 else l)
unfolding is_expected
heard-IsLedger slack now gain false l h = h
heard-IsLedger slack now gain true l h =
    elim (Option-cases (after_echo gain (retain_recent now l.expected))) [
      | inl e ↦ rw (e, is_expected) h
      | inr (rest, e) ↦ rw (e, is_expected) h
    ]

pub hear-IsLedger :
    (slack now : ℕ) (ono : Ono) (gain : ℤ) (index : ℕ) (lives : List Live) (latest : List (ℕ × ℤ))
    → All (IsLedger slack) lives
    → All (IsLedger slack) (hear now ono gain index lives latest).0
unfolding hear
hear-IsLedger slack now ono gain index [] latest h = tt
hear-IsLedger slack now ono gain index (l ∷ ls) latest h = (
  heard-IsLedger slack now gain (option_eq l.leader_ono (some ono)) l h.0,
  hear-IsLedger slack now ono gain (index + 1) ls _ h.1,
)
