-- ===== src/Core/Tests.antt =====
-- Concrete runs of the router and the channel scheme, and their theorems at concrete inputs.
use dante_babel_box.Prelude.{
  ℕ, ◌+◌, ◌*◌, ◌/◌, ◌%◌, String, true, false, some, List, [], ◌∷◌, ◌≡◌, refl, arith, All, length,
  get_elem?, none, ltb, if◌then◌else◌, ◌==◌,
}
use dante_babel_box.Prelude.Maps.{lookup, insert}
use dante_babel_box.Oca.{OcaAddress, OcaValue, OcaEvent, value_eq, address_eq}
use dante_babel_box.Core.ChannelScheme.{
  Field, field_of, descriptor, field_ono, decode_ono, trim_ono, decode_trim_ono,
  descriptors_for_channels,
}
use dante_babel_box.Core.ChannelScheme.RoundTrip.{decode_ono-field_ono, decode_trim_ono-trim_ono}
use dante_babel_box.Core.ChannelScheme.Roles.{role_inj}
use dante_babel_box.Core.ChannelScheme.Descriptors.{Describes, descriptors_complete}
use dante_babel_box.Core.ChannelMapping.{ChannelMapping, resolve, resolve_scheme}
use dante_babel_box.Core.Router.{
  Router, new, register_device, holds, peers_of, push_to_peer, push_to_peers, handle_event,
}
use dante_babel_box.Core.Router.Delivery.{IsRegistered, contains, NoRepeat}
use dante_babel_box.Core.Router.Echo.{handle_event-delivers, handle_event-pushes, no_bounce}
use dante_babel_box.Core.Router.Missing.{endpoints, missing, confirmation}
use dante_babel_box.Core.Router.Confirmations.{IsOwing, cascade}
use dante_babel_box.Core.Router.Cascade.{IsReached, cascade_ends}
use dante_babel_box.Core.Router.Listeners.{IsListening}
use dante_babel_box.Core.Router.Calls.{Call, calls, listeners_exact}

decode_ono-field_ono_example : decode_ono (field_ono 7 Field.pad) 16 ≡ some (7, Field.pad)
decode_ono-field_ono_example =
    decode_ono-field_ono 7 Field.pad 16 (omega arith) (omega arith) (omega arith)

-- An object number past every channel of a 16-channel device decodes as its channel 1.
decode_ono_past_end : decode_ono 196609 16 ≡ some (1, Field.gain)
unfolding decode_ono
decode_ono_past_end = refl

decode_trim_ono-trim_ono_example : decode_trim_ono (trim_ono 7) 40 ≡ some 7
decode_trim_ono-trim_ono_example =
    decode_trim_ono-trim_ono 7 40 (omega arith) (omega arith) (omega arith)

abbrev three : ℕ
three = 3

role_inj_example : (three ≡ three) × (Field.gain ≡ Field.gain)
role_inj_example = role_inj 3 3 Field.gain Field.gain (omega arith) (omega arith) refl

descriptors_complete_example :
    (length (descriptors_for_channels 4) ≡ 3 * 4)
    × ((i : ℕ)
        → get_elem? (descriptors_for_channels 4) i
          ≡ (if ltb i (3 * 4) then some (descriptor (1 + i / 3) (field_of (i % 3))) else none))
    × All (Describes 4) (descriptors_for_channels 4)
descriptors_complete_example = descriptors_complete 4 (omega arith)

abbrev stage_to_console : ChannelMapping
stage_to_console = record {
  from = record { device_id = "a"; channel = 1 };
  to = record { device_id = "b"; channel = 99 };
  bidirectional = true;
}

resolve_scheme_example :
    resolve stage_to_console (descriptors_for_channels 4) (descriptors_for_channels 8) ≡ []
resolve_scheme_example =
    resolve_scheme stage_to_console 4 8 (omega arith) (omega arith) (omega arith) (omega arith)
      (omega arith) (omega arith)

-- Two devices whose gains are linked both ways. Floats are numbers here, and adapters texts.
abbrev here : OcaAddress
here = record { device_id = "a"; ono = 1 }

abbrev there : OcaAddress
there = record { device_id = "b"; ono = 5 }

abbrev linked : Router ℕ String
linked =
    register_device
      (register_device (new (record { from = here; to = there; bidirectional = true } ∷ [])) "a"
        "console")
      "b" "stagebox"

abbrev reading : OcaEvent ℕ
reading = confirmation (OcaValue.f32 1250) here

abbrev confirmed : OcaEvent ℕ
confirmed = confirmation (OcaValue.f32 1250) there

pushed_once :
    (handle_event ◌==◌ linked reading).1 ≡ record { peer = there; value = OcaValue.f32 1250 } ∷ []
unfolding handle_event push_to_peers push_to_peer peers_of holds new register_device lookup insert
    address_eq value_eq
pushed_once = refl

handle_event-delivers_example :
    (holds ◌==◌ (handle_event ◌==◌ linked reading).0.last_known reading.object.value here ≡ true)
    × All
        (λ p.
          IsRegistered linked p
          → holds ◌==◌ (handle_event ◌==◌ linked reading).0.last_known reading.object.value p
            ≡ true)
        (peers_of linked.mappings here)
    × ((handle_event ◌==◌ linked reading).0.devices ≡ linked.devices)
    × ((handle_event ◌==◌ linked reading).0.mappings ≡ linked.mappings)
unfolding value_eq
handle_event-delivers_example = handle_event-delivers ◌==◌ linked reading refl

handle_event-pushes_example :
    All
      (λ s.
        ((s.value ≡ reading.object.value)
          × IsRegistered linked s.peer
          × (holds ◌==◌ linked.last_known reading.object.value s.peer ≡ false)
          × (address_eq here s.peer ≡ false))
        × (contains (peers_of linked.mappings here) s.peer ≡ true))
      (handle_event ◌==◌ linked reading).1
    × NoRepeat (handle_event ◌==◌ linked reading).1
unfolding value_eq
handle_event-pushes_example = handle_event-pushes ◌==◌ linked reading refl

no_bounce_example :
    All
      (λ s.
        (address_eq here s.peer ≡ false)
        × (contains (peers_of linked.mappings here) s.peer ≡ false))
      (handle_event ◌==◌ (handle_event ◌==◌ linked reading).0 confirmed).1
unfolding value_eq
no_bounce_example = no_bounce ◌==◌ linked reading confirmed refl refl

cascade_ends_example :
    ((cascade ◌==◌ (OcaValue.f32 1250) 9 linked (here ∷ [])).waiting ≡ [])
    × NoRepeat (cascade ◌==◌ (OcaValue.f32 1250) 9 linked (here ∷ [])).sent
    × All
        (IsOwing ◌==◌ (OcaValue.f32 1250) linked)
        (cascade ◌==◌ (OcaValue.f32 1250) 9 linked (here ∷ [])).sent
    × All
        (IsReached ◌==◌
          (OcaValue.f32 1250)
          linked
          (cascade ◌==◌ (OcaValue.f32 1250) 9 linked (here ∷ [])).router)
        (here ∷ [])
    × All
        (λ s.
          IsReached ◌==◌
            (OcaValue.f32 1250)
            linked
            (cascade ◌==◌ (OcaValue.f32 1250) 9 linked (here ∷ [])).router
            s.peer)
        (cascade ◌==◌ (OcaValue.f32 1250) 9 linked (here ∷ [])).sent
unfolding value_eq missing endpoints holds new register_device lookup
cascade_ends_example = cascade_ends ◌==◌ (OcaValue.f32 1250) refl 9 linked (here ∷ []) (omega arith)

-- No comparison of a NaN is true: the confirmation of a pushed NaN is pushed back to its origin.
nan_bounced :
    (handle_event (λ x y. false) (handle_event (λ x y. false) linked reading).0 confirmed).1
    ≡ record { peer = here; value = OcaValue.f32 1250 } ∷ []
unfolding handle_event push_to_peers push_to_peer peers_of holds new register_device lookup insert
    address_eq value_eq
nan_bounced = refl

abbrev session : List (Call ℕ String)
session =
    Call.register "a" "console"
    ∷ Call.register "a" "spare"
    ∷ Call.deregister "a"
    ∷ Call.receive reading
    ∷ []

listeners_exact_example : IsListening (calls ◌==◌ (new []) session)
listeners_exact_example = listeners_exact ◌==◌ [] session
