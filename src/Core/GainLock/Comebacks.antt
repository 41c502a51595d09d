-- ===== src/Core/GainLock/Comebacks.antt =====
-- What becomes of the followers on a desk that `retry_failed` of gain_lock.rs takes up again.
use mathlib.Core.Path.{◌∙◌, sym, subst}
use dante_babel_box.Oca.{Ono, OcaObjectDescriptor}
use dante_babel_box.Prelude.{
  Option-cases, String, Bool, true, false, Option, none, some, List, [], ◌∷◌, ◌++◌, ◌≡◌, refl, ap,
  Bool-cases, inl, inr, arith, str_eq, eq_iff, if◌then◌else◌, ok,
}
use dante_babel_box.Prelude.Int.{ℤ}
use dante_babel_box.Core.GainLock.{Follower, Live, Desks}
use dante_babel_box.Core.GainLock.Settle.{
  is_down, settle_one, settle_list, settle_ono, settle_device, settle_move,
}
use dante_babel_box.Core.GainLock.Ledger.{settle_list-cons}
use dante_babel_box.Core.GainLock.Moves.{TakesAll, Settled, settle_one-Settled}
use dante_babel_box.Core.GainLock.Listening.{settle_lives}
use dante_babel_box.Core.GainLock.Probes.{followers_of}

-- The desk is registered, and takes whatever move it is offered in full.
pub record IsWilling (desks : Desks) (device : String) : Type 0 where
  pub descriptors : List OcaObjectDescriptor
  pub connected : desks.describe device ≡ some descriptors
  pub takes : (ono : Ono) (move : ℤ) → desks.nudge device ono move ≡ ok move

-- What becomes of a follower of the desk: if the desk is back and the follower has an object, what
-- is owed has been applied, and otherwise the follower is as it was.
abbrev pub Moved : Bool → Option Ono → Follower → Follower → Type 0
Moved false ono f g = g ≡ f
Moved true none f g = g ≡ f
Moved true (some ono) f g = Settled f g

-- The followers of one table and of the other, one by one: those on the device have `Moved`.
abbrev pub Retried : String → Bool → List Follower → List Follower → Type 0
Retried d back [] [] = Unit {0}
Retried d back [] (g ∷ gs) = ⊥
Retried d back (f ∷ fs) [] = ⊥
Retried d back (f ∷ fs) (g ∷ gs) =
    (if str_eq f.device d then Moved back f.ono f g else Unit {0}) × Retried d back fs gs

Retried-append :
    (d : String) (back : Bool) (fs gs hs ks : List Follower)
    → Retried d back fs gs
    → Retried d back hs ks
    → Retried d back (fs ++ hs) (gs ++ ks)
Retried-append d back [] [] hs ks p q = q
Retried-append d back [] (g ∷ gs) hs ks p q = absurd p
Retried-append d back (f ∷ fs) [] hs ks p q = absurd p
Retried-append d back (f ∷ fs) (g ∷ gs) hs ks p q = (p.0, Retried-append d back fs gs hs ks p.1 q)

-- A table that is left alone.
pub Retried-refl : (d : String) (fs : List Follower) → Retried d false fs fs
Retried-refl d [] = tt
Retried-refl d (f ∷ fs) = elim (Bool-cases (str_eq f.device d)) [
  | inl e ↦ rw e (refl, Retried-refl d fs)
  | inr e ↦ rw e (tt, Retried-refl d fs)
]

is_down-append :
    (xs ys : List String) (d : String)
    → is_down xs d ≡ false
    → is_down ys d ≡ false
    → is_down (xs ++ ys) d ≡ false
unfolding is_down
is_down-append [] ys d h k = k
is_down-append (x ∷ xs) ys d h k = ground (arith, is_down-append xs ys d)

module _ (desks : Desks) (d : String) (back down : List String)
    (up : is_down back d ≡ true → is_down down d ≡ false)
    (willing : is_down back d ≡ true → IsWilling desks d) where
  settle_one-Moved :
      (f : Follower)
      → is_down back d ≡ true
      → f.device ≡ d
      → Moved true f.ono f (settle_one desks down f).0
  settle_one-Moved f b e = elim (Option-cases f.ono) [
    | inl none_at ↦
        let same : (settle_one desks down f).0 ≡ f =
          unfold settle_one settle_ono in ground (arith, none_at, e, up b) in
        subst (λ o. Moved true o f (settle_one desks down f).0) (sym none_at) same
    | inr (ono, at) ↦
        let w = willing b in
        let takes_all : TakesAll desks down f = record {
          ono = ono;
          descriptors = w.descriptors;
          found = at;
          connected = ap desks.describe e ∙ w.connected;
          up = ap (is_down down) e ∙ up b;
          takes = λ move. ap (λ id. desks.nudge id ono move) e ∙ w.takes ono move;
        } in
        subst (λ o. Moved true o f (settle_one desks down f).0) (sym at)
          (settle_one-Settled desks down f takes_all)
  ]

  -- A move of a follower on the device fails on no desk that is willing.
  settle_one-good :
      (f : Follower) → is_down back d ≡ true → f.device ≡ d → (settle_one desks down f).1 ≡ false
  settle_one-good f b e = elim (Option-cases f.ono) [
    | inl none_at ↦ unfold settle_one settle_ono in ground (arith, none_at)
    | inr (ono, at) ↦
        let w = willing b in
        unfold settle_one settle_ono settle_device settle_move in
        ground (arith, at, e, up b, w.connected, w.takes ono f.owed)
  ]

  settle_list-Moved :
      (fs : List Follower)
      → Retried d (is_down back d) fs (settle_list desks (λ f. is_down back f.device) down fs).0
  settle_list-Moved [] = unfold settle_list in tt
  settle_list-Moved (f ∷ fs) =
      rw (settle_list-cons desks (λ f. is_down back f.device) down f fs)
        (moved, settle_list-Moved fs)
    where
      chosen : Bool → Follower
      chosen b = if b then (settle_one desks down f).0 else f

      on_device : (b : Bool) → is_down back d ≡ b → f.device ≡ d → Moved b f.ono f (chosen b)
      on_device true h e = settle_one-Moved f h e
      on_device false h e = refl

      moved :
          if str_eq f.device d
          then Moved (is_down back d) f.ono f (chosen (is_down back f.device))
          else Unit {0}
      moved = elim (Bool-cases (str_eq f.device d)) [
        | inl e ↦
            let same = (eq_iff f.device d).0 e in
            rw e (
              subst (λ b. Moved (is_down back d) f.ono f (chosen b)) (ap (is_down back) (sym same))
                (on_device (is_down back d) refl same))
        | inr e ↦ rw e tt
      ]

  settle_list-failed :
      (fs : List Follower)
      → is_down (settle_list desks (λ f. is_down back f.device) down fs).1 d ≡ false
  unfolding settle_list is_down
  settle_list-failed [] = refl
  settle_list-failed (f ∷ fs) =
      ground (arith, eq_iff f.device d, settle_one-good f, settle_list-failed fs)

  pub settle_lives-Moved :
      (ls : List Live)
      → Retried d
          (is_down back d)
          (followers_of ls)
          (followers_of (settle_lives desks back down ls).0)
  unfolding settle_lives
  settle_lives-Moved [] = tt
  settle_lives-Moved (l ∷ ls) =
      Retried-append d (is_down back d) l.followers _ (followers_of ls) _
        (settle_list-Moved l.followers) (settle_lives-Moved ls)

  pub settle_lives-failed : (ls : List Live) → is_down (settle_lives desks back down ls).1 d ≡ false
  unfolding settle_lives
  settle_lives-failed [] = unfold is_down in refl
  settle_lives-failed (l ∷ ls) =
      is_down-append _ (settle_lives desks back down ls).1 d (settle_list-failed l.followers)
        (settle_lives-failed ls)
