-- ===== src/Ocp1/Pdu/Header.antt =====
-- `write_header` of pdu.rs against `pdu_len`.
use dante_babel_box.Prelude.{
  ℕ, suc, ◌+◌, ◌%◌, ◌^◌, ◌≤◌, ◌<◌, some, List, [], ◌∷◌, ◌++◌, ◌≡◌, refl, ◌∙◌, arith, length, ok,
  length-append, take-append,
}
use dante_babel_box.Prelude.Bytes.{of_be, to_be, of_be-to_be}
use dante_babel_box.Ocp1.Value.{write_uint, new}
use dante_babel_box.Ocp1.Pdu.{
  PduType, to_u8, from_u8, write_header, pdu_len, octet, size_field, version_field, count_field,
  payload, decode_pdu, decode_messages, header_len,
}
use dante_babel_box.Ocp1.Pdu.Framing.{header_answer, pdu_len-header_answer}

-- A frame of one message.
unfoldable pub frame : PduType → List ℕ → List ℕ
unfolding write_header
frame pdu_type body = write_header [] pdu_type (length body) 1 ++ body

-- The frame, octet by octet, and what follows it.
frame_head : PduType → ℕ → List ℕ
frame_head pdu_type size = 59 ∷ 0 ∷ 1 ∷ (to_be 4 size ++ (to_u8 pdu_type % 256) ∷ 0 ∷ 1 ∷ [])

frame-append :
    (pdu_type : PduType) (body more : List ℕ)
    → frame pdu_type body ++ more
      ≡ frame_head pdu_type ((9 + length body) % 2 ^ 32) ++ (body ++ more)
unfolding frame write_header write_uint frame_head to_be
frame-append pdu_type body more = refl

from_u8-to_u8 : (pdu_type : PduType) → from_u8 (to_u8 pdu_type % 256) ≡ ok pdu_type
unfolding from_u8 to_u8
from_u8-to_u8 PduType.command = refl
from_u8-to_u8 PduType.command_response_required = refl
from_u8-to_u8 PduType.notification = refl
from_u8-to_u8 PduType.response = refl
from_u8-to_u8 PduType.keep_alive = refl

length-frame :
    (pdu_type : PduType) (body : List ℕ) → length (frame pdu_type body) ≡ 10 + length body
unfolding frame write_header write_uint to_be
length-frame pdu_type body = omega arith

size_field-frame :
    (pdu_type : PduType) (body more : List ℕ)
    → length body + 9 < 2 ^ 32
    → size_field (frame pdu_type body ++ more) ≡ 9 + length body
unfolding frame write_header write_uint to_be
size_field-frame pdu_type body more h =
    let read = of_be-to_be 4 ((9 + length body) % 2 ^ 32) (omega arith) in read ∙ omega arith

-- A frame of at most 2^32 octets is found whole, whatever follows it in the buffer.
pub pdu_len-frame :
    (pdu_type : PduType) (body more : List ℕ)
    → length body + 9 < 2 ^ 32
    → pdu_len (frame pdu_type body ++ more) ≡ ok (some (10 + length body))
pdu_len-frame pdu_type body more h =
    pdu_len-header_answer (frame pdu_type body ++ more) long
    ∙ (rw (size_field-frame pdu_type body more h) answer)
  where
    long : header_len ≤ length (frame pdu_type body ++ more)
    long = omega (arith, length-append (frame pdu_type body) more, length-frame pdu_type body)

    answer :
        header_answer
          (octet (frame pdu_type body ++ more) 0)
          (version_field (frame pdu_type body ++ more))
          (9 + length body)
          (length (frame pdu_type body ++ more))
        ≡ ok (some (10 + length body))
    answer =
        unfold header_answer frame write_header write_uint to_be of_be in
        ground (arith, length-append body more)

payload-frame :
    (pdu_type : PduType) (body more : List ℕ)
    → payload (frame pdu_type body ++ more) (10 + length body) ≡ body
unfolding frame write_header write_uint to_be
payload-frame pdu_type body more =
    let n = length body in
    let ten : 10 + n ≡ suc (suc (suc (suc (suc (suc (suc (suc (suc (suc n))))))))) = omega arith in
    rw ten (take-append body more)

-- Decoding a frame of one message decodes its body.
pub decode_pdu-frame :
    (pdu_type : PduType) (body more : List ℕ)
    → length body + 9 < 2 ^ 32
    → decode_pdu (frame pdu_type body ++ more) ≡ decode_messages pdu_type 1 (new body)
unfolding decode_pdu
decode_pdu-frame pdu_type body more h =
    rw
      (
        pdu_len-frame pdu_type body more h,
        kind,
        from_u8-to_u8 pdu_type,
        payload-frame pdu_type body more,
        one,
      )
      refl
  where
    kind : octet (frame pdu_type body ++ more) 7 ≡ to_u8 pdu_type % 256
    kind = unfold frame write_header write_uint to_be in refl

    one : count_field (frame pdu_type body ++ more) ≡ 1
    one = unfold frame write_header write_uint to_be of_be in refl
