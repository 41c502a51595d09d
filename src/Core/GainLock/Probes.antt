-- ===== src/Core/GainLock/Probes.antt =====
-- How `retry_failed` of gain_lock.rs chooses the desks that come back.
use mathlib.Core.Path.{◌∙◌}
use dante_babel_box.Oca.{Ono}
use dante_babel_box.Prelude.{
  String, Bool, true, false, ◌&&◌, ◌||◌, Option, none, some, List, [], ◌∷◌, ◌++◌, ◌≡◌, refl, ap,
  All, arith, str_eq, eq_iff, Result, ok, err, not,
}
use dante_babel_box.Prelude.Int.{ℤ}
use dante_babel_box.Core.GainLock.{Follower, Live, Desks}
use dante_babel_box.Core.GainLock.Settle.{is_down, mark_down}
use dante_babel_box.Core.GainLock.Listening.{probe_in, probe_of, answering, without_all}

-- All followers of a table, signal by signal.
abbrev pub followers_of : List Live → List Follower
followers_of [] = []
followers_of (l ∷ ls) = l.followers ++ followers_of ls

-- Of all followers on the device, `f` stands first in the table.
pub record IsFirst (device : String) (lives : List Live) (f : Follower) : Type 0 where
  pub before : List Follower
  pub after : List Follower
  pub split : followers_of lives ≡ before ++ f ∷ after
  pub others : All (λ g. str_eq g.device device ≡ false) before
  pub same : str_eq f.device device ≡ true

-- The desk answers a read of the object, if there is one.
abbrev pub answers_read : Result String ℤ → Bool
answers_read (ok gain) = true
answers_read (err e) = false

abbrev pub answers : Desks → String → Option Ono → Bool
answers desks device none = false
answers desks device (some ono) = answers_read (desks.read device ono)

probe_in-append :
    (d : String) (xs ys : List Follower)
    → probe_in d (xs ++ ys) ≡ elim (probe_in d xs) [ none ↦ probe_in d ys | some o ↦ some o ]
unfolding probe_in
probe_in-append d [] ys = refl
probe_in-append d (x ∷ xs) ys = ground (arith, probe_in-append d xs ys)

abbrev joined : Option (Option Ono) → Option Ono
joined none = none
joined (some o) = o

probe_of-followers_of :
    (d : String) (lives : List Live) → probe_of d lives ≡ joined (probe_in d (followers_of lives))
unfolding probe_of
probe_of-followers_of d [] = unfold probe_in in refl
probe_of-followers_of d (l ∷ ls) =
    ground (arith, probe_in-append d l.followers (followers_of ls), probe_of-followers_of d ls)

probe_in-first :
    (d : String) (f : Follower) (before after : List Follower)
    → All (λ g. str_eq g.device d ≡ false) before
    → str_eq f.device d ≡ true
    → probe_in d (before ++ f ∷ after) ≡ some f.ono
unfolding probe_in
probe_in-first d f [] after h e = ground arith
probe_in-first d f (b ∷ bs) after h e = ground (arith, h.0, probe_in-first d f bs after h.1 e)

pub probe_of-first :
    (d : String) (lives : List Live) (f : Follower) → IsFirst d lives f → probe_of d lives ≡ f.ono
probe_of-first d lives f h =
    probe_of-followers_of d lives
    ∙ ap joined (ap (probe_in d) h.split ∙ probe_in-first d f h.before h.after h.others h.same)

pub is_down-answering :
    (desks : Desks) (lives : List Live) (down : List String) (d : String)
    → is_down (answering desks lives down) d
      ≡ (is_down down d && answers desks d (probe_of d lives))
unfolding answering is_down
is_down-answering desks lives [] d = refl
is_down-answering desks lives (x ∷ xs) d =
    ground (arith, eq_iff x d, is_down-answering desks lives xs d)

pub is_down-without_all :
    (back down : List String) (d : String)
    → is_down (without_all back down) d ≡ (is_down down d && not (is_down back d))
unfolding without_all is_down
is_down-without_all back [] d = refl
is_down-without_all back (x ∷ xs) d = ground (arith, eq_iff x d, is_down-without_all back xs d)

pub is_down-mark_down :
    (down failed : List String) (d : String)
    → is_down (mark_down down failed) d ≡ (is_down down d || is_down failed d)
unfolding mark_down is_down
is_down-mark_down down [] d = ground arith
is_down-mark_down down (x ∷ xs) d =
    ground (arith, eq_iff x d, is_down-mark_down down xs d, is_down-mark_down (x ∷ down) xs d)
