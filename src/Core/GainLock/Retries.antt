-- ===== src/Core/GainLock/Retries.antt =====
-- `retry_failed` of gain_lock.rs: which desks come back, and what becomes of their followers.
use mathlib.Core.Path.{◌∙◌, sym, subst}
use dante_babel_box.Prelude.{
  String, true, false, ◌&&◌, List, [], ◌∷◌, ◌≡◌, ap, arith, if◌then◌else◌, not,
}
use dante_babel_box.Core.GainLock.{Follower, Inner, Desks}
use dante_babel_box.Core.GainLock.Settle.{is_down}
use dante_babel_box.Core.GainLock.Listening.{
  probe_of, answering, without_all, settle_lives, retry_back, retry_failed,
}
use dante_babel_box.Core.GainLock.Probes.{
  followers_of, IsFirst, answers, probe_of-first, is_down-answering, is_down-without_all,
  is_down-mark_down,
}
use dante_babel_box.Core.GainLock.Comebacks.{
  IsWilling, Retried, Retried-refl, settle_lives-Moved, settle_lives-failed,
}

retry_back-Retried :
    (desks : Desks) (inner : Inner) (d : String) (back : List String)
    → is_down inner.down d ≡ true
    → (is_down back d ≡ true → IsWilling desks d)
    → (is_down (retry_back desks inner back).down d ≡ not (is_down back d))
      × Retried d
          (is_down back d)
          (followers_of inner.live)
          (followers_of (retry_back desks inner back).live)
unfolding retry_back
retry_back-Retried desks inner d [] h w =
    unfold is_down in (h, Retried-refl d (followers_of inner.live))
retry_back-Retried desks inner d (b ∷ bs) h w =
    let back = b ∷ bs in
    let down = without_all back inner.down in
    let left = is_down-without_all back inner.down d in
    let up : is_down back d ≡ true → is_down down d ≡ false = λ e. ground (arith, e, left) in
    let failed = settle_lives-failed desks d back down up w inner.live in
    (
      ground (
        arith,
        h,
        left,
        failed,
        is_down-mark_down down (settle_lives desks back down inner.live).1 d,
      ),
      settle_lives-Moved desks d back down up w inner.live,
    )

-- A desk is probed by the object of its first follower in the table, and by no other. While the
-- lock is on, a desk that is down comes back from a retry exactly when that follower has an object
-- and the desk answers a read of it, provided that a desk that answers is registered and takes its
-- moves in full. If it comes back, every follower on it that has an object has been given what it is
-- owed, up to less than epsilon. If not, all followers on it are as they were, whatever objects the
-- others have.
pub retry_by_first :
    (desks : Desks) (inner : Inner) (d : String) (f : Follower)
    → inner.locked ≡ true
    → is_down inner.down d ≡ true
    → IsFirst d inner.live f
    → (answers desks d f.ono ≡ true → IsWilling desks d)
    → (is_down (retry_failed desks inner).down d ≡ not (answers desks d f.ono))
      × Retried d
          (answers desks d f.ono)
          (followers_of inner.live)
          (followers_of (retry_failed desks inner).live)
unfolding retry_failed
retry_by_first desks inner d f on h first w =
    let back = answering desks inner.live inner.down in
    let same : is_down back d ≡ answers desks d f.ono =
      is_down-answering desks inner.live inner.down d
      ∙ ap (λ b. b && answers desks d (probe_of d inner.live)) h
      ∙ ap (answers desks d) (probe_of-first d inner.live f first) in
    let tried : retry_back desks inner back ≡ retry_failed desks inner =
      ap (λ b. if not b then inner else retry_back desks inner back) (sym on) in
    subst
      (λ r.
        (is_down r.down d ≡ not (answers desks d f.ono))
        × Retried d (answers desks d f.ono) (followers_of inner.live) (followers_of r.live))
      tried
      (subst
        (λ b.
          (is_down (retry_back desks inner back).down d ≡ not b)
          × Retried d b (followers_of inner.live) (followers_of (retry_back desks inner back).live))
        same (retry_back-Retried desks inner d back h (λ e. w (sym same ∙ e))))
