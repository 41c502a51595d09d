-- ===== src/Ocp1/Pdu/Notifications.antt =====
-- `decode_notification` of pdu.rs on the layout of a property-changed notification.
use dante_babel_box.Prelude.{
  ℕ, ◌+◌, ◌^◌, ◌<◌, List, [], ◌∷◌, ◌++◌, ◌≡◌, refl, ◌∙◌, arith, length, ok,
}
use dante_babel_box.Prelude.Bytes.{to_be}
use dante_babel_box.Ocp1.Value.{write_bytes, new}
use dante_babel_box.Ocp1.Value.Reading.{++_assoc, at, read_uint-at, remaining-at, read_bytes-at}
use dante_babel_box.Ocp1.Pdu.{
  PduType, MemberId, Message, Notification, decode_message, decode_messages, decode_pdu,
  decode_body, decode_notification, read_member_id,
}
use dante_babel_box.Ocp1.Pdu.Header.{frame, decode_pdu-frame}
use dante_babel_box.Ocp1.Pdu.RoundTrip.{take_params-at}

-- A notification as AES70-3 lays it out: its size, the subscription's target and method, a count,
-- an octet string for the notification, then the emitter, the event, the property and the value.
pub record Layout : Type 0 where
  pub target : ℕ
  pub method : MemberId
  pub param_count : ℕ
  pub notification_id : List ℕ
  pub event : MemberId
  pub changed : Notification

unfoldable pub id_octets : MemberId → List ℕ
id_octets id = to_be 2 id.def_level ++ to_be 2 id.index

unfoldable pub IsId : MemberId → Type 0
IsId id = (id.def_level < 2 ^ 16) × (id.index < 2 ^ 16)

unfoldable pub layout_body : Layout → List ℕ
layout_body l =
    to_be 4 l.target
    ++ (id_octets l.method
        ++ (to_be 1 l.param_count
            ++ (write_bytes l.notification_id []
                ++ (to_be 4 l.changed.emitter
                    ++ (id_octets l.event ++ (id_octets l.changed.property ++ l.changed.value))))))

unfoldable pub layout_octets : Layout → List ℕ
layout_octets l = to_be 4 (4 + length (layout_body l)) ++ layout_body l

pub record IsLayout (l : Layout) : Type 0 where
  pub target : l.target < 2 ^ 32
  pub method : IsId l.method
  pub param_count : l.param_count < 2 ^ 8
  pub notification_id : length l.notification_id < 2 ^ 16
  pub emitter : l.changed.emitter < 2 ^ 32
  pub event : IsId l.event
  pub property : IsId l.changed.property
  pub size : 13 + length (layout_body l) < 2 ^ 32

read_member_id-at :
    (id : MemberId) (seen ys : List ℕ)
    → IsId id
    → read_member_id (at seen (id_octets id ++ ys)) ≡ ok (id, at (seen ++ id_octets id) ys)
unfolding read_member_id id_octets IsId
read_member_id-at id seen ys h =
    rw
      (
        ++_assoc (to_be 2 id.def_level) (to_be 2 id.index) ys,
        read_uint-at 2 id.def_level _ _ h.0,
        read_uint-at 2 id.index _ _ h.1,
        ++_assoc seen (to_be 2 id.def_level) (to_be 2 id.index),
      )
      refl

decode_body-layout : (l : Layout) → IsLayout l → decode_body (new (layout_body l)) ≡ ok l.changed
unfolding decode_body new layout_body
decode_body-layout l h =
    rw
      (
        read_uint-at 4 l.target [] _ (omega (arith, h.target)),
        read_member_id-at l.method _ _ h.method,
        read_uint-at 1 l.param_count _ _ (omega (arith, h.param_count)),
        read_bytes-at _ l.notification_id _ h.notification_id,
        read_uint-at 4 l.changed.emitter _ _ (omega (arith, h.emitter)),
        read_member_id-at l.event _ _ h.event,
        read_member_id-at l.changed.property _ _ h.property,
        remaining-at _ l.changed.value,
      )
      refl

-- A notification in its layout, whose fields fit their widths, is decoded to its emitter, property
-- and value, whatever the target, the identifier of the notification and the event are, and whatever
-- follows it.
pub decode_pdu-layout :
    (l : Layout) (more : List ℕ)
    → IsLayout l
    → decode_pdu (frame PduType.notification (layout_octets l) ++ more)
      ≡ ok (Message.notification_message l.changed ∷ [])
unfolding decode_messages decode_message decode_notification new
decode_pdu-layout l more h =
    decode_pdu-frame PduType.notification (layout_octets l) more long ∙ decoded
  where
    long : length (layout_octets l) + 9 < 2 ^ 32
    long = unfold layout_octets to_be in omega (arith, h.size)

    body : decode_body (at [] (layout_body l)) ≡ ok l.changed
    body = unfold new in decode_body-layout l h

    decoded :
        decode_messages PduType.notification 1 (new (layout_octets l))
        ≡ ok (Message.notification_message l.changed ∷ [])
    decoded =
        unfold layout_octets decode_messages decode_message decode_notification new in
        rw
          (
            read_uint-at 4 (4 + length (layout_body l)) [] _ (omega (arith, h.size)),
            take_params-at (4 + length (layout_body l)) 4 _ (layout_body l) refl,
            body,
          )
          refl
