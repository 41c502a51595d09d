-- ===== src/Core/GainLock/Listening.antt =====
-- What the engine of gain_lock.rs does unasked: it takes a batch of events, reads the leader back,
-- and retries the desks that were down.
use dante_babel_box.Prelude.{
  Result, ℕ, ◌+◌, String, Bool, ◌&&◌, not, Option, none, some, List, [], ◌∷◌, ◌++◌, str_eq, ◌==◌,
  if◌then◌else◌, ok, err,
}
use dante_babel_box.Prelude.Int.{ℤ}
use dante_babel_box.Prelude.Maps.{insert}
use dante_babel_box.Oca.{Ono, OcaEvent, as_f32}
use dante_babel_box.Core.GainLock.{Follower, Live, Inner, Desks, expect, is_expected}
use dante_babel_box.Core.GainLock.Settle.{is_down, mark_down, settle_list, observe_live}
use dante_babel_box.Core.GainLock.Resolve.{option_eq}
use dante_babel_box.Core.GainLock.Engine.{observe}

-- One report of the leader against every signal, from the index at hand: an expected value is
-- swallowed, another one becomes the latest of its signal.
unfoldable pub hear : ℕ → Ono → ℤ → ℕ → List Live → List (ℕ × ℤ) → List Live × List (ℕ × ℤ)
unfolding is_expected
hear now ono gain index [] latest = ([], latest)
hear now ono gain index (l ∷ ls) latest =
    let (l', echo) = is_expected now gain l in
    let mine = option_eq l.leader_ono (some ono) in
    let latest' = if mine && not echo then insert ◌==◌ index gain latest else latest in
    let (ls', latest'') = hear now ono gain (index + 1) ls latest' in
    ((if mine then l' else l) ∷ ls', latest'')

unfoldable pub hear_value : ℕ → Ono → Option ℤ → List Live → List (ℕ × ℤ) → List Live × List (ℕ × ℤ)
unfolding hear
hear_value now ono none lives latest = (lives, latest)
hear_value now ono (some gain) lives latest = hear now ono gain 0 lives latest

-- An event of another device, or one without a float, is passed over.
unfoldable pub hear_event :
    ℕ → String → OcaEvent ℤ → List Live → List (ℕ × ℤ) → List Live × List (ℕ × ℤ)
unfolding hear_value
hear_event now leader e lives latest =
    if str_eq e.address.device_id leader
    then hear_value now e.address.ono (as_f32 e.object.value) lives latest
    else (lives, latest)

-- The first loop of `on_events`.
unfoldable pub hear_all :
    ℕ → String → List (OcaEvent ℤ) → List Live → List (ℕ × ℤ) → List Live × List (ℕ × ℤ)
unfolding hear_event
hear_all now leader [] lives latest = (lives, latest)
hear_all now leader (e ∷ es) lives latest =
    let heard = hear_event now leader e lives latest in hear_all now leader es heard.0 heard.1

unfoldable pub observe_all : Desks → Inner → List (ℕ × ℤ) → Inner
unfolding observe
observe_all desks inner [] = inner
observe_all desks inner ((index, gain) ∷ rest) =
    observe_all desks (observe desks inner index gain) rest

unfoldable pub on_events : Desks → ℕ → List (OcaEvent ℤ) → Inner → Inner
unfolding hear_all observe_all
on_events desks now batch inner =
    let (lives, latest) = hear_all now inner.leader batch inner.live [] in
    observe_all desks (record inner { live = lives }) latest

-- One round of `read_leader`: a gain that is read is expected as an echo and observed.
unfoldable pub read_answer :
    Desks → ℕ → Bool → List String → Live → Result String ℤ → Live × List String
unfolding expect observe_live
read_answer desks now locked down l (err e) = (l, [])
read_answer desks now locked down l (ok gain) =
    observe_live desks locked down (expect now gain l) gain

unfoldable pub read_live :
    Desks → ℕ → String → Bool → List String → Live → Option Ono → Live × List String
unfolding read_answer
read_live desks now leader locked down l none = (l, [])
read_live desks now leader locked down l (some ono) =
    read_answer desks now locked down l (desks.read leader ono)

unfoldable pub read_lives :
    Desks → ℕ → String → Bool → List String → List Live → List Live × List String
unfolding read_live mark_down
read_lives desks now leader locked down [] = ([], down)
read_lives desks now leader locked down (l ∷ ls) =
    let (l', failed) = read_live desks now leader locked down l l.leader_ono in
    let (ls', down') = read_lives desks now leader locked (mark_down down failed) ls in
    (l' ∷ ls', down')

unfoldable pub read_leader : Desks → ℕ → Inner → Inner
unfolding read_lives
read_leader desks now inner =
    let (lives, down) = read_lives desks now inner.leader inner.locked inner.down inner.live in
    record inner { live = lives; down = down }

-- The object by which a desk that is down is probed: that of its first follower.
unfoldable pub probe_in : String → List Follower → Option (Option Ono)
probe_in device [] = none
probe_in device (f ∷ fs) = if str_eq f.device device then some f.ono else probe_in device fs

unfoldable pub probe_of : String → List Live → Option Ono
unfolding probe_in
probe_of device [] = none
probe_of device (l ∷ ls) = elim (probe_in device l.followers) [
  | none ↦ probe_of device ls
  | some ono ↦ ono
]

-- The desks that answer a read again.
unfoldable pub answering : Desks → List Live → List String → List String
unfolding probe_of
answering desks lives [] = []
answering desks lives (d ∷ ds) =
    let rest = answering desks lives ds in
    elim (probe_of d lives) [
      | none ↦ rest
      | some ono ↦ elim (desks.read d ono) [ err e ↦ rest | ok gain ↦ d ∷ rest ]
    ]

unfoldable pub without_all : List String → List String → List String
unfolding is_down
without_all back [] = []
without_all back (d ∷ ds) =
    let rest = without_all back ds in if is_down back d then rest else d ∷ rest

unfoldable pub settle_lives :
    Desks → List String → List String → List Live → List Live × List String
unfolding settle_list
settle_lives desks back down [] = ([], [])
settle_lives desks back down (l ∷ ls) =
    let (fs, failed) = settle_list desks (λ f. is_down back f.device) down l.followers in
    let (ls', more) = settle_lives desks back down ls in
    (record l { followers = fs } ∷ ls', failed ++ more)

unfoldable pub retry_back : Desks → Inner → List String → Inner
unfolding without_all settle_lives mark_down
retry_back desks inner [] = inner
retry_back desks inner (b ∷ bs) =
    let down = without_all (b ∷ bs) inner.down in
    let (lives, failed) = settle_lives desks (b ∷ bs) down inner.live in
    record inner { live = lives; down = mark_down down failed }

-- The probes run with the mutex released.
unfoldable pub retry_failed : Desks → Inner → Inner
unfolding answering retry_back
retry_failed desks inner =
    if not inner.locked
    then inner
    else retry_back desks inner (answering desks inner.live inner.down)
