-- ===== src/Ah/Reports.antt =====
-- What an update does to the entries and events of an adapter.
use dante_babel_box.Prelude.{ℕ, some, [], ◌∷◌, ◌++◌, ◌≡◌, refl, ◌==◌, ==_iff, if◌then◌else◌}
use dante_babel_box.Prelude.Maps.{lookup, lookup-insert}
use dante_babel_box.Ah.{PreampState, ChangedFields, Update, Desk, entry_or_unread, merge, report}

-- The entry of a channel, as a reading.
abbrev pub entry : Desk → ℕ → PreampState
entry d channel = entry_or_unread (lookup ◌==◌ channel d.state)

-- The event of one channel is sent, its entry is the state in the event, and the other entries stay.
abbrev pub Reports : Desk → Desk → ℕ → PreampState → ChangedFields → Type 0
Reports before after channel state changed =
    (after.events
      ≡ before.events ++ record { channel = channel; state = state; changed = changed } ∷ [])
    × ((other : ℕ)
        → lookup ◌==◌ other after.state
          ≡ (if channel == other then some state else lookup ◌==◌ other before.state))

pub report-Reports :
    (d : Desk) (channel : ℕ) (update : Update)
    → Reports d
        (report channel update d)
        channel
        (merge update (entry d channel)).0
        (merge update (entry d channel)).1
unfolding report
report-Reports d channel update = (refl, λ other. lookup-insert ◌==◌ ==_iff channel other _ d.state)
