-- ===== src/Core/GainLock/Config/Soundness.antt =====
-- `GainLockConfig::validate` of gain_lock.rs: which tables are accepted.
use dante_babel_box.Prelude.{
  >>=-ok, ap, String, Bool, true, false, none, some, List, [], ◌∷◌, ◌++◌, ◌≡◌, ◌↔◌, ◌∙◌, sym, refl,
  arith, All, if◌then◌else◌, Bool-cases, inl, inr, ok, ◌>>=◌,
}
use mathlib.Core.Path.{subst, ap}
use dante_babel_box.Core.GainLock.{Member, Signal, GainLockConfig}
use dante_babel_box.Core.GainLock.Settle.{is_down}
use dante_babel_box.Core.GainLock.Engine.{leads}
use dante_babel_box.Core.GainLock.Config.{
  Trims, has_trim, is_useless, check_trim, check_member, check_members, check_leads, check_signal,
  check_signals, validate,
}

-- The trim that a member takes up, and those of all members, in order.
unfoldable pub trim_of : Member → Trims
trim_of m = elim m.input [ none ↦ [] | some input ↦ (m.device, input) ∷ [] ]

unfoldable pub trims_of : List Member → Trims
unfolding trim_of
trims_of [] = []
trims_of (m ∷ ms) = trim_of m ++ trims_of ms

unfoldable pub all_trims : List Signal → Trims
unfolding trims_of
all_trims [] = []
all_trims (s ∷ ss) = trims_of s.members ++ all_trims ss

-- No trim stands twice, nor among those seen before.
unfoldable pub Apart : Trims → Trims → Type 0
Apart seen [] = Unit {0}
Apart seen ((d, i) ∷ ts) = (has_trim seen d i ≡ false) × Apart ((d, i) ∷ seen) ts

abbrev pub onto : Trims → Trims → Trims
onto [] seen = seen
onto (t ∷ ts) seen = onto ts (t ∷ seen)

unfoldable pub NamesApart : List String → List Signal → Type 0
NamesApart seen [] = Unit {0}
NamesApart seen (s ∷ ss) = (is_down seen s.name ≡ false) × NamesApart (s.name ∷ seen) ss

abbrev pub IsMember : (String → Bool) → Member → Type 0
IsMember is_device m = (is_device m.device ≡ true) × (is_useless m ≡ false)

abbrev pub IsSignal : (String → Bool) → String → Signal → Type 0
IsSignal is_device leader s = All (IsMember is_device) s.members × (leads leader s.members ≡ true)

check_member-ok :
    (is_device : String → Bool) (signal : String) (m : Member) (seen seen' : Trims)
    → check_member is_device signal m seen ≡ ok seen'
    → IsMember is_device m × Apart seen (trim_of m) × (seen' ≡ onto (trim_of m) seen)
unfolding check_member check_trim Apart trim_of
check_member-ok is_device signal m seen seen' h = ground arith

check_member_complete :
    (is_device : String → Bool) (signal : String) (m : Member) (seen : Trims)
    → IsMember is_device m
    → Apart seen (trim_of m)
    → check_member is_device signal m seen ≡ ok (onto (trim_of m) seen)
unfolding check_member check_trim Apart trim_of
check_member_complete is_device signal m seen h k = ground arith

onto-++ : (a b seen : Trims) → onto (a ++ b) seen ≡ onto b (onto a seen)
onto-++ [] b seen = refl
onto-++ (t ∷ ts) b seen = onto-++ ts b (t ∷ seen)

Apart-split : (a b seen : Trims) → Apart seen (a ++ b) → Apart seen a × Apart (onto a seen) b
unfolding Apart
Apart-split [] b seen h = (tt, h)
Apart-split ((d, i) ∷ ts) b seen h =
    let rest = Apart-split ts b ((d, i) ∷ seen) h.1 in ((h.0, rest.0), rest.1)

Apart-join : (a b seen : Trims) → Apart seen a → Apart (onto a seen) b → Apart seen (a ++ b)
unfolding Apart
Apart-join [] b seen h k = k
Apart-join ((d, i) ∷ ts) b seen h k = (h.0, Apart-join ts b ((d, i) ∷ seen) h.1 k)

check_members-ok :
    (is_device : String → Bool) (signal : String) (ms : List Member) (seen seen' : Trims)
    → check_members is_device signal ms seen ≡ ok seen'
    → All (IsMember is_device) ms × Apart seen (trims_of ms) × (seen' ≡ onto (trims_of ms) seen)
unfolding check_members trims_of
check_members-ok is_device signal [] seen seen' h = unfold Apart in (tt, tt, grind arith)
check_members-ok is_device signal (m ∷ ms) seen seen' h =
    let (mid, e, k) = >>=-ok (check_member is_device signal m seen) _ seen' h in
    let one = check_member-ok is_device signal m seen mid e in
    let rest = check_members-ok is_device signal ms mid seen' k in
    (
      (one.0, rest.0),
      Apart-join (trim_of m) (trims_of ms) seen one.1
          (subst (λ s. Apart s (trims_of ms)) one.2 rest.1),
      rest.2 ∙ ap (onto (trims_of ms)) one.2 ∙ sym (onto-++ (trim_of m) (trims_of ms) seen),
    )

check_members_complete :
    (is_device : String → Bool) (signal : String) (ms : List Member) (seen : Trims)
    → All (IsMember is_device) ms
    → Apart seen (trims_of ms)
    → check_members is_device signal ms seen ≡ ok (onto (trims_of ms) seen)
unfolding check_members trims_of
check_members_complete is_device signal [] seen h k = refl
check_members_complete is_device signal (m ∷ ms) seen h k =
    let both = Apart-split (trim_of m) (trims_of ms) seen k in
    rw (check_member_complete is_device signal m seen h.0 both.0) (
      check_members_complete is_device signal ms _ h.1 both.1
      ∙ ap ok (sym (onto-++ (trim_of m) (trims_of ms) seen)))

check_signal-ok :
    (is_device : String → Bool) (leader : String) (names : List String) (s : Signal)
    (seen seen' : Trims)
    → check_signal is_device leader names s seen ≡ ok seen'
    → (is_down names s.name ≡ false)
      × IsSignal is_device leader s
      × Apart seen (trims_of s.members)
      × (seen' ≡ onto (trims_of s.members) seen)
unfolding check_signal check_leads
check_signal-ok is_device leader names s seen seen' h = elim (Bool-cases (is_down names s.name)) [
  | inl twice ↦ absurd (refused twice h)
  | inr new ↦
      let (mid, e, k) =
        >>=-ok (check_members is_device s.name s.members seen) _ seen' (passed new h) in
      let ms = check_members-ok is_device s.name s.members seen mid e in
      let led = leads_ok mid k in (new, (ms.0, led.0), ms.1, led.1 ∙ ms.2)
]
  where
    refused :
        is_down names s.name ≡ true → check_signal is_device leader names s seen ≡ ok seen' → ⊥
    refused twice k = unfold check_signal in grind arith

    passed :
        is_down names s.name ≡ false
        → check_signal is_device leader names s seen ≡ ok seen'
        → (check_members is_device s.name s.members seen >>= check_leads leader s) ≡ ok seen'
    passed new k = rw (new, check_signal, if◌then◌else◌) at k

    leads_ok :
        (mid : Trims)
        → check_leads leader s mid ≡ ok seen'
        → (leads leader s.members ≡ true) × (seen' ≡ mid)
    leads_ok mid k = unfold check_leads in ground arith

check_signal_complete :
    (is_device : String → Bool) (leader : String) (names : List String) (s : Signal) (seen : Trims)
    → is_down names s.name ≡ false
    → IsSignal is_device leader s
    → Apart seen (trims_of s.members)
    → check_signal is_device leader names s seen ≡ ok (onto (trims_of s.members) seen)
unfolding check_signal check_leads
check_signal_complete is_device leader names s seen new h k =
    rw (new, check_members_complete is_device s.name s.members seen h.0 k, h.1, if◌then◌else◌) refl

check_signals-ok :
    (is_device : String → Bool) (leader : String) (names : List String) (ss : List Signal)
    (seen seen' : Trims)
    → check_signals is_device leader names ss seen ≡ ok seen'
    → NamesApart names ss × All (IsSignal is_device leader) ss × Apart seen (all_trims ss)
unfolding check_signals all_trims NamesApart
check_signals-ok is_device leader names [] seen seen' h = (tt, tt, unfold Apart in tt)
check_signals-ok is_device leader names (s ∷ ss) seen seen' h =
    let (mid, e, k) = >>=-ok (check_signal is_device leader names s seen) _ seen' h in
    let one = check_signal-ok is_device leader names s seen mid e in
    let rest = check_signals-ok is_device leader (s.name ∷ names) ss mid seen' k in
    (
      (one.0, rest.0),
      (one.1, rest.1),
      Apart-join (trims_of s.members) (all_trims ss) seen one.2
          (subst (λ t. Apart t (all_trims ss)) one.3 rest.2),
    )

check_signals_complete :
    (is_device : String → Bool) (leader : String) (names : List String) (ss : List Signal)
    (seen : Trims)
    → NamesApart names ss
    → All (IsSignal is_device leader) ss
    → Apart seen (all_trims ss)
    → (seen' : Trims) × (check_signals is_device leader names ss seen ≡ ok seen')
unfolding check_signals all_trims NamesApart
check_signals_complete is_device leader names [] seen n h k = (seen, refl)
check_signals_complete is_device leader names (s ∷ ss) seen n h k =
    let both = Apart-split (trims_of s.members) (all_trims ss) seen k in
    rw (check_signal_complete is_device leader names s seen n.0 h.0 both.0)
      (check_signals_complete is_device leader (s.name ∷ names) ss _ n.1 h.1 both.1)

-- What a table has to satisfy: its leader is a device; no two signals share a name; every member
-- is a device with a preamp or an input; the leader has a preamp in every signal; and no input of a
-- device is taken up twice.
pub record IsSound (is_device : String → Bool) (config : GainLockConfig) : Type 0 where
  pub leader_known : is_device config.leader ≡ true
  pub names_apart : NamesApart [] config.signals
  pub signals_led : All (IsSignal is_device config.leader) config.signals
  pub trims_apart : Apart [] (all_trims config.signals)

-- A table is accepted exactly when it is sound: its leader is a device, no two signals share a name,
-- every member is a device with a preamp or an input, the leader has a preamp in every signal, and
-- no input of a device is taken up twice.
pub validate_exact :
    (is_device : String → Bool) (config : GainLockConfig)
    → (validate is_device config ≡ ok tt) ↔ IsSound is_device config
unfolding validate
validate_exact is_device config = (accepted, sound)
  where
    accepted : validate is_device config ≡ ok tt → IsSound is_device config
    accepted h = elim (Bool-cases (is_device config.leader)) [
      | inr missing ↦ absurd (refused missing h)
      | inl known ↦
          let (trims, e, _) =
            >>=-ok (check_signals is_device config.leader [] config.signals []) _ tt
              (rw (known, validate, if◌then◌else◌) at h) in
          let all = check_signals-ok is_device config.leader [] config.signals [] trims e in
          record {
            leader_known = known;
            names_apart = all.0;
            signals_led = all.1;
            trims_apart = all.2;
          }
    ]
      where
        refused : is_device config.leader ≡ false → validate is_device config ≡ ok tt → ⊥
        refused missing k = unfold validate in grind arith

    sound : IsSound is_device config → validate is_device config ≡ ok tt
    sound h =
        let (trims, e) =
          check_signals_complete is_device config.leader [] config.signals [] h.names_apart
            h.signals_led h.trims_apart in
        unfold validate in simp (h.leader_known, e) refl
