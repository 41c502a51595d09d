-- ===== src/Ocp1/Pdu/RoundTrip.antt =====
-- The encoders of pdu.rs against its decoders.
use dante_babel_box.Prelude.{
  ℕ, ◌+◌, ◌-◌, ◌%◌, ◌^◌, ◌<◌, Bool, true, false, List, [], ◌∷◌, ◌++◌, ◌≡◌, refl, ◌∙◌, ap, arith,
  length, take, drop, ok, ltb,
}
use dante_babel_box.Prelude.Bytes.{to_be}
use dante_babel_box.Ocp1.Value.{write_uint, write_raw, new, remaining}
use dante_babel_box.Ocp1.Value.Reading.{at, read_uint-at, remaining-at}
use dante_babel_box.Ocp1.Pdu.{
  PduType, Command, Response, Message, response_body, command_body, encode_response, encode_command,
  encode_keepalive, decode_response, decode_command, decode_keepalive, decode_message,
  decode_messages, decode_pdu, take_params, read_member_id,
}
use dante_babel_box.Ocp1.Pdu.Header.{frame, decode_pdu-frame}

take_all : (xs : List ℕ) → take (length xs) xs ≡ xs
take_all [] = refl
take_all (x ∷ xs) = ap (λ (t : List ℕ). x ∷ t) (take_all xs)

drop_all : (xs : List ℕ) → drop (length xs) xs ≡ []
drop_all [] = refl
drop_all (x ∷ xs) = drop_all xs

-- The parameters are the rest of the message.
pub take_params-at :
    (size fixed : ℕ) (seen params : List ℕ)
    → size ≡ fixed + length params
    → take_params size fixed (at seen params) ≡ ok (params, new [])
take_params-at size fixed seen params e =
    unfold take_params in
    rw
      (
        remaining-at seen params,
        e,
        enough,
        all,
        exact fixed (length params),
        take_all params,
        drop_all params,
      )
      refl
  where
    enough : ltb (fixed + length params) fixed ≡ false
    enough = ground arith

    all : ltb (length params) (fixed + length params - fixed) ≡ false
    all = ground arith

    exact : (a b : ℕ) → a + b - a ≡ b
    exact a b = omega arith

-- The fields of a response fit their widths, and its message the size field of a frame.
pub record IsResponse (r : Response) : Type 0 where
  pub handle : r.handle < 2 ^ 32
  pub status : r.status < 2 ^ 8
  pub param_count : r.param_count < 2 ^ 8
  pub size : 19 + length r.params < 2 ^ 32

response_body-fields :
    (r : Response)
    → response_body r
      ≡ to_be 4 ((10 + length r.params) % 2 ^ 32)
        ++ (to_be 4 r.handle ++ (to_be 1 r.status ++ (to_be 1 r.param_count ++ r.params)))
unfolding response_body write_uint write_raw to_be
response_body-fields r = refl

decode_response-body :
    (r : Response)
    → IsResponse r
    → decode_response (new (response_body r)) ≡ ok (Message.response_message r, new [])
unfolding decode_response new
decode_response-body r h =
    rw
      (
        response_body-fields r,
        read_uint-at 4 ((10 + length r.params) % 2 ^ 32) [] _ (omega arith),
        read_uint-at 4 r.handle _ _ (omega (arith, h.handle)),
        read_uint-at 1 r.status _ _ (omega (arith, h.status)),
        read_uint-at 1 r.param_count _ _ (omega (arith, h.param_count)),
        take_params-at ((10 + length r.params) % 2 ^ 32) 10 _ r.params (omega (arith, h.size)),
      )
      refl

-- The fields of a command fit their widths, and its message the size field of a frame.
pub record IsCommand (c : Command) : Type 0 where
  pub handle : c.handle < 2 ^ 32
  pub target : c.target < 2 ^ 32
  pub def_level : c.method.def_level < 2 ^ 16
  pub index : c.method.index < 2 ^ 16
  pub param_count : c.param_count < 2 ^ 8
  pub size : 26 + length c.params < 2 ^ 32

command_body-fields :
    (c : Command)
    → command_body c
      ≡ to_be 4 ((17 + length c.params) % 2 ^ 32)
        ++ (to_be 4 c.handle
            ++ (to_be 4 c.target
                ++ (to_be 2 c.method.def_level
                    ++ (to_be 2 c.method.index ++ (to_be 1 c.param_count ++ c.params)))))
unfolding command_body write_uint write_raw to_be
command_body-fields c = refl

decode_command-body :
    (c : Command)
    → IsCommand c
    → decode_command (new (command_body c)) ≡ ok (Message.command_message c, new [])
unfolding decode_command new read_member_id
decode_command-body c h =
    rw
      (
        command_body-fields c,
        read_uint-at 4 ((17 + length c.params) % 2 ^ 32) [] _ (omega arith),
        read_uint-at 4 c.handle _ _ (omega (arith, h.handle)),
        read_uint-at 4 c.target _ _ (omega (arith, h.target)),
        read_uint-at 2 c.method.def_level _ _ (omega (arith, h.def_level)),
        read_uint-at 2 c.method.index _ _ (omega (arith, h.index)),
        read_uint-at 1 c.param_count _ _ (omega (arith, h.param_count)),
        take_params-at ((17 + length c.params) % 2 ^ 32) 17 _ c.params (omega (arith, h.size)),
      )
      refl

length-response_body : (r : Response) → length (response_body r) ≡ 10 + length r.params
unfolding response_body write_uint write_raw to_be
length-response_body r = omega arith

length-command_body : (c : Command) → length (command_body c) ≡ 17 + length c.params
unfolding command_body write_uint write_raw to_be
length-command_body c = omega arith

-- A response whose fields fit their widths survives the wire, whatever follows it.
pub decode_pdu-encode_response :
    (r : Response) (more : List ℕ)
    → IsResponse r
    → decode_pdu (encode_response r ++ more) ≡ ok (Message.response_message r ∷ [])
unfolding encode_response frame decode_messages decode_message
decode_pdu-encode_response r more h =
    decode_pdu-frame PduType.response (response_body r) more
      (omega (arith, length-response_body r, h.size))
    ∙ (rw (decode_response-body r h) refl)

-- A command whose fields fit their widths survives the wire, whether or not it asks for a response,
-- and whatever follows it.
pub decode_pdu-encode_command :
    (c : Command) (response_required : Bool) (more : List ℕ)
    → IsCommand c
    → decode_pdu (encode_command c response_required ++ more) ≡ ok (Message.command_message c ∷ [])
unfolding encode_command frame decode_messages decode_message
decode_pdu-encode_command c true more h =
    decode_pdu-frame PduType.command_response_required (command_body c) more
      (omega (arith, length-command_body c, h.size))
    ∙ (rw (decode_command-body c h) refl)
decode_pdu-encode_command c false more h =
    decode_pdu-frame PduType.command (command_body c) more
      (omega (arith, length-command_body c, h.size))
    ∙ (rw (decode_command-body c h) refl)

decode_keepalive-secs :
    (secs : ℕ)
    → secs < 2 ^ 16
    → decode_keepalive (new (to_be 2 secs))
      ≡ ok (Message.keep_alive_message secs, at (to_be 2 secs) [])
unfolding decode_keepalive new
decode_keepalive-secs secs h =
    rw (short, read (to_be 2 secs) (unfold to_be in refl), read_uint-at 2 secs [] [] (omega arith))
      refl
  where
    short : ltb (length (remaining (at [] (to_be 2 secs)))) 4 ≡ true
    short = unfold remaining to_be in refl

    read : (xs : List ℕ) → xs ≡ xs ++ [] → at [] xs ≡ at [] (xs ++ [])
    read xs e = ap (at []) e

-- A heartbeat in seconds that fits its width survives the wire, whatever follows it.
pub decode_pdu-encode_keepalive :
    (secs : ℕ) (more : List ℕ)
    → secs < 2 ^ 16
    → decode_pdu (encode_keepalive secs ++ more) ≡ ok (Message.keep_alive_message secs ∷ [])
unfolding encode_keepalive frame decode_messages decode_message
decode_pdu-encode_keepalive secs more h = rw (same more) (
    decode_pdu-frame PduType.keep_alive (to_be 2 secs) more (unfold to_be in omega arith)
    ∙ (rw (decode_keepalive-secs secs h) refl))
  where
    same : (m : List ℕ) → encode_keepalive secs ++ m ≡ frame PduType.keep_alive (to_be 2 secs) ++ m
    same m = unfold encode_keepalive frame to_be in refl
