-- ===== src/Ocp1/Pdu/Decoding.antt =====
-- `decode_pdu` of pdu.rs on whatever arrives.
use dante_babel_box.Prelude.{
  ℕ, zero, suc, ◌≤◌, ◌<◌, Option, none, some, List, ◌∷◌, ◌++◌, ◌≡◌, refl, arith, length, Result, ok,
  take-append_le, >>=-ok, ok_or,
}
use dante_babel_box.Ocp1.{Error}
use dante_babel_box.Ocp1.Value.{Reader, new}
use dante_babel_box.Ocp1.Pdu.{
  PduType, Message, octet, count_field, payload, pdu_len, from_u8, decode_message, decode_messages,
  decode_pdu, header_len,
}
use dante_babel_box.Ocp1.Pdu.Framing.{pdu_len_sound, pdu_len-append, octet-append, some_not_none}

decode_messages-length :
    (pdu_type : PduType) (n : ℕ) (r : Reader) (ms : List Message)
    → decode_messages pdu_type n r ≡ ok ms
    → length ms ≡ n
unfolding decode_messages
decode_messages-length pdu_type zero r ms h = ground arith
decode_messages-length pdu_type (suc n) r ms h =
    let ((m, r'), _, k) = >>=-ok (decode_message pdu_type r) _ ms h in
    let (rest, e, last) = >>=-ok (decode_messages pdu_type n r') _ ms k in
    counted m rest _ (decode_messages-length pdu_type n r' rest e) refl last
  where
    counted :
        (m : Message) (rest : List Message) (answer : Result Error (List Message))
        → length rest ≡ n
        → answer ≡ ok (m ∷ rest)
        → answer ≡ ok ms
        → length ms ≡ suc n
    counted m rest answer e k l = grind arith

-- A frame that decodes gives as many messages as its header counts, and was there in full.
pub decode_pdu-length :
    (pdu : List ℕ) (ms : List Message)
    → decode_pdu pdu ≡ ok ms
    → (length ms ≡ count_field pdu)
      × ((total : ℕ) × (pdu_len pdu ≡ ok (some total)) × (total ≤ length pdu))
unfolding decode_pdu
decode_pdu-length pdu ms h =
    let (len, e, k) = >>=-ok (pdu_len pdu) _ ms h in
    let (total, f, l) = >>=-ok (ok_or len Error.truncated) _ ms k in
    let (pdu_type, _, last) = >>=-ok (from_u8 (octet pdu 7)) _ ms l in
    let found = whole len total e f in
    (
      decode_messages-length pdu_type (count_field pdu) (new (payload pdu total)) ms last,
      (total, found, (pdu_len_sound pdu total found).1),
    )
  where
    whole :
        (len : Option ℕ) (total : ℕ)
        → pdu_len pdu ≡ ok len
        → ok_or len Error.truncated ≡ ok total
        → pdu_len pdu ≡ ok (some total)
    whole none total e f = grind arith
    whole (some n) total e f = grind arith

-- Octets behind a frame do not change what it decodes to, be that messages or an error.
pub decode_pdu-append :
    (pdu more : List ℕ) (total : ℕ)
    → pdu_len pdu ≡ ok (some total)
    → decode_pdu (pdu ++ more) ≡ decode_pdu pdu
unfolding decode_pdu
decode_pdu-append pdu more total h =
    rw
      (
        pdu_len-append pdu more (some_not_none total (pdu_len pdu) h),
        h,
        same 7 (omega arith),
        same 8 (omega arith),
        same 9 (omega arith),
        take-append_le total pdu more sound.1,
      )
      refl
  where
    sound : (header_len ≤ total) × (total ≤ length pdu)
    sound = let s = pdu_len_sound pdu total h in (s.0, s.1)

    same : (i : ℕ) → i < header_len → octet (pdu ++ more) i ≡ octet pdu i
    same i k = octet-append pdu more i k (omega (arith, sound.0, sound.1))
