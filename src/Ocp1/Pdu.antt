-- ===== src/Ocp1/Pdu.antt =====
-- crates/ocp1/src/pdu.rs: the framing of OCP.1.
pub mod Framing
pub mod Header
pub mod RoundTrip
pub mod Decoding
pub mod Notifications
use dante_babel_box.Prelude.{
  ℕ, zero, suc, ◌+◌, ◌-◌, ◌*◌, ◌/◌, ◌%◌, ◌^◌, String, Bool, true, false, not, Option, none, some,
  List, [], ◌∷◌, ◌++◌, length, take, drop, get_or, ltb, leb, ◌==◌, if◌then◌else◌, Result, ok, err,
  ◌>>=◌, ok_or,
}
use dante_babel_box.Prelude.Bytes.{of_be, to_be}
use dante_babel_box.Ocp1.{Error}
use dante_babel_box.Ocp1.Value.{
  Reader, new, remaining, read_u8, read_u16, read_u32, read_bytes, Writer, write_u8, write_u16,
  write_u32, write_raw,
}

abbrev pub sync_val : ℕ
sync_val = 59

abbrev pub protocol_version : ℕ
protocol_version = 1

abbrev pub header_len : ℕ
header_len = 10

-- What the size field counts besides the payload.
abbrev pub pdu_size_overhead : ℕ
pdu_size_overhead = 9

pub data PduType : Type 0 where
  command command_response_required notification response keep_alive : PduType

-- `pdu_type as u8`
unfoldable pub to_u8 : PduType → ℕ
to_u8 PduType.command = 0
to_u8 PduType.command_response_required = 1
to_u8 PduType.notification = 2
to_u8 PduType.response = 3
to_u8 PduType.keep_alive = 4

unfoldable pub from_u8 : ℕ → Result Error PduType
from_u8 v =
    if v == 0
    then ok PduType.command
    else if v == 1
    then ok PduType.command_response_required
    else if v == 2
    then ok PduType.notification
    else if v == 3
    then ok PduType.response
    else if v == 4
    then ok PduType.keep_alive
    else err (Error.unknown_pdu_type v)

pub record MemberId : Type 0 where
  pub def_level : ℕ
  pub index : ℕ

pub record Command : Type 0 where
  pub handle : ℕ
  pub target : ℕ
  pub method : MemberId
  pub param_count : ℕ
  pub params : List ℕ

pub record Response : Type 0 where
  pub handle : ℕ
  pub status : ℕ
  pub param_count : ℕ
  pub params : List ℕ

pub record Notification : Type 0 where
  pub emitter : ℕ
  pub property : MemberId
  pub value : List ℕ

pub data Message : Type 0 where
  response_message : Response → Message
  notification_message : Notification → Message
  keep_alive_message : ℕ → Message
  command_message : Command → Message

unfoldable pub status_name : ℕ → String
status_name code =
    if code == 0
    then "OK"
    else if code == 1
    then "ProtocolVersionError"
    else if code == 2
    then "DeviceError"
    else if code == 3
    then "Locked"
    else if code == 4
    then "BadFormat"
    else if code == 5
    then "BadONo"
    else if code == 6
    then "ParameterError"
    else if code == 7
    then "ParameterOutOfRange"
    else if code == 8
    then "NotImplemented"
    else if code == 9
    then "InvalidRequest"
    else if code == 10
    then "ProcessingFailed"
    else if code == 11
    then "BadMethod"
    else if code == 12
    then "PartiallySucceeded"
    else if code == 13
    then "Timeout"
    else if code == 14
    then "BufferOverflow"
    else "Unknown"

-- `Response::ok` and `Response::into_result`.
unfoldable pub into_result : Response → Result Error Response
unfolding status_name
into_result r = if r.status == 0 then ok r else err (Error.status r.status (status_name r.status))

-- `write_header`, at the end of what is written already.
unfoldable pub write_header : Writer → PduType → ℕ → ℕ → Writer
unfolding to_u8
write_header out pdu_type payload_len msg_count =
    out
    ++ write_u16 msg_count (
        write_u8 (to_u8 pdu_type) (
          write_u32 ((pdu_size_overhead + payload_len) % 2 ^ 32)
            (write_u16 protocol_version (write_u8 sync_val []))))

-- The body of a command: 17 octets before its parameters.
unfoldable pub command_body : Command → Writer
unfolding write_raw
command_body cmd = write_raw cmd.params (
    write_u8 cmd.param_count (
      write_u16 cmd.method.index (
        write_u16 cmd.method.def_level (
          write_u32 cmd.target
            (write_u32 cmd.handle (write_u32 ((17 + length cmd.params) % 2 ^ 32) []))))))

unfoldable pub encode_command : Command → Bool → List ℕ
unfolding command_body write_header
encode_command cmd response_required =
    let pdu_type =
      if response_required then PduType.command_response_required else PduType.command in
    write_header [] pdu_type (length (command_body cmd)) 1 ++ command_body cmd

unfoldable pub encode_keepalive : ℕ → List ℕ
unfolding write_header to_be
encode_keepalive heartbeat_secs = write_header [] PduType.keep_alive 2 1 ++ to_be 2 heartbeat_secs

-- The body of a response: 10 octets before its parameters.
unfoldable pub response_body : Response → Writer
unfolding write_raw
response_body r = write_raw r.params (
    write_u8 r.param_count
      (write_u8 r.status (write_u32 r.handle (write_u32 ((10 + length r.params) % 2 ^ 32) []))))

unfoldable pub encode_response : Response → List ℕ
unfolding response_body write_header
encode_response r = write_header [] PduType.response (length (response_body r)) 1 ++ response_body r

-- `buf[i]`; the code only reads within the header.
abbrev pub octet : List ℕ → ℕ → ℕ
octet buf i = get_or buf i 0

abbrev pub size_field : List ℕ → ℕ
size_field buf = of_be (octet buf 3 ∷ octet buf 4 ∷ octet buf 5 ∷ octet buf 6 ∷ [])

abbrev pub version_field : List ℕ → ℕ
version_field buf = of_be (octet buf 1 ∷ octet buf 2 ∷ [])

unfoldable pub pdu_len : List ℕ → Result Error (Option ℕ)
pdu_len buf =
    if ltb (length buf) header_len
    then ok none
    else if not (octet buf 0 == sync_val)
    then err (Error.bad_sync (octet buf 0))
    else if not (version_field buf == protocol_version)
    then err (Error.bad_version (version_field buf))
    else if ltb (size_field buf) pdu_size_overhead
    then err (Error.bad_length (size_field buf))
    else if ltb (length buf) (size_field buf + 1)
    then ok none
    else ok (some (size_field buf + 1))

-- `(ms / 1000).max(1) as u16`
abbrev pub milliseconds_to_secs : ℕ → ℕ
milliseconds_to_secs ms = (if ltb (ms / 1000) 1 then 1 else ms / 1000) % 2 ^ 16

unfoldable pub decode_keepalive : Reader → Result Error (Message × Reader)
decode_keepalive r =
    if ltb (length (remaining r)) 4
    then (do (secs, r') ← read_u16 r; ok (Message.keep_alive_message secs, r'))
    else (do (ms, r') ← read_u32 r; ok (Message.keep_alive_message (milliseconds_to_secs ms), r'))

-- `size.checked_sub(fixed)`, then the parameters of that length, and a new cursor behind them.
unfoldable pub take_params : ℕ → ℕ → Reader → Result Error (List ℕ × Reader)
take_params size fixed r =
    if ltb size fixed
    then err (Error.bad_length size)
    else if ltb (length (remaining r)) (size - fixed)
    then err Error.truncated
    else ok (take (size - fixed) (remaining r), new (drop (size - fixed) (remaining r)))

unfoldable pub decode_response : Reader → Result Error (Message × Reader)
unfolding take_params
decode_response r = do
  (size, r1) ← read_u32 r
  (handle, r2) ← read_u32 r1
  (status, r3) ← read_u8 r2
  (param_count, r4) ← read_u8 r3
  (params, r5) ← take_params size 10 r4
  ok (
    Message.response_message
        (record { handle = handle; status = status; param_count = param_count; params = params }),
    r5,
  )

unfoldable pub read_member_id : Reader → Result Error (MemberId × Reader)
read_member_id r = do
  (def_level, r1) ← read_u16 r
  (index, r2) ← read_u16 r1
  ok (record { def_level = def_level; index = index }, r2)

unfoldable pub decode_command : Reader → Result Error (Message × Reader)
unfolding take_params read_member_id
decode_command r = do
  (size, r1) ← read_u32 r
  (handle, r2) ← read_u32 r1
  (target, r3) ← read_u32 r2
  (method, r4) ← read_member_id r3
  (param_count, r5) ← read_u8 r4
  (params, r6) ← take_params size 17 r5
  ok (
    Message.command_message (record {
      handle = handle;
      target = target;
      method = method;
      param_count = param_count;
      params = params;
    }),
    r6,
  )

-- The fields of a notification's body.
unfoldable pub decode_body : Reader → Result Error Notification
unfolding read_member_id
decode_body b = do
  (target, b1) ← read_u32 b
  (method, b2) ← read_member_id b1
  (param_count, b3) ← read_u8 b2
  (notification_id, b4) ← read_bytes b3
  (emitter, b5) ← read_u32 b4
  (event, b6) ← read_member_id b5
  (property, b7) ← read_member_id b6
  ok (record { emitter = emitter; property = property; value = remaining b7 })

unfoldable pub decode_notification : Reader → Result Error (Message × Reader)
unfolding take_params decode_body
decode_notification r = do
  (size, r1) ← read_u32 r
  (body, r2) ← take_params size 4 r1
  body_fields ← decode_body (new body)
  ok (Message.notification_message body_fields, r2)

unfoldable pub decode_message : PduType → Reader → Result Error (Message × Reader)
unfolding decode_keepalive decode_response decode_notification decode_command
decode_message PduType.keep_alive r = decode_keepalive r
decode_message PduType.response r = decode_response r
decode_message PduType.notification r = decode_notification r
decode_message PduType.command r = decode_command r
decode_message PduType.command_response_required r = decode_command r

unfoldable pub decode_messages : PduType → ℕ → Reader → Result Error (List Message)
unfolding decode_message
decode_messages pdu_type zero r = ok []
decode_messages pdu_type (suc n) r = do
  (message, r') ← decode_message pdu_type r
  rest ← decode_messages pdu_type n r'
  ok (message ∷ rest)

abbrev pub count_field : List ℕ → ℕ
count_field pdu = of_be (octet pdu 8 ∷ octet pdu 9 ∷ [])

-- `&pdu[HEADER_LEN..total]`
abbrev pub payload : List ℕ → ℕ → List ℕ
payload pdu total = drop header_len (take total pdu)

unfoldable pub decode_pdu : List ℕ → Result Error (List Message)
unfolding pdu_len from_u8 decode_messages
decode_pdu pdu = do
  len ← pdu_len pdu
  total ← ok_or len Error.truncated
  pdu_type ← from_u8 (octet pdu 7)
  decode_messages pdu_type (count_field pdu) (new (payload pdu total))
