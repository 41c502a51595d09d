-- ===== src/Ocp1/Value.antt =====
-- crates/ocp1/src/value.rs: the cursor over received parameters and the accumulator of outgoing ones.
-- Each reading method gives its value and the cursor afterwards. An octet is a number below 256.
pub mod Reading
use dante_babel_box.Prelude.{
  ℕ, zero, suc, ◌+◌, ◌%◌, ◌^◌, Bool, true, false, not, List, [], ◌∷◌, ◌++◌, length, take, drop, leb,
  ◌==◌, if◌then◌else◌, Result, ok, err, ◌>>=◌,
}
use dante_babel_box.Prelude.Bytes.{to_be, of_be}
use dante_babel_box.Ocp1.{Error}

pub record Reader : Type 0 where
  pub buf : List ℕ
  pub pos : ℕ

unfoldable pub new : List ℕ → Reader
new buf = record { buf = buf; pos = 0 }

unfoldable pub remaining : Reader → List ℕ
remaining r = drop r.pos r.buf

unfoldable pub is_empty : Reader → Bool
is_empty r = leb (length r.buf) r.pos

-- `take`: an end past the buffer and an overflow of the addition are one error.
unfoldable pub take_octets : ℕ → Reader → Result Error (List ℕ × Reader)
unfolding remaining
take_octets n r =
    if leb (r.pos + n) (length r.buf)
    then ok (take n (remaining r), record r { pos = r.pos + n })
    else err Error.truncated

-- `read_int!`
unfoldable pub read_uint : ℕ → Reader → Result Error (ℕ × Reader)
unfolding take_octets of_be
read_uint width r = do (octets, r') ← take_octets width r; ok (of_be octets, r')

abbrev pub read_u8 : Reader → Result Error (ℕ × Reader)
read_u8 = read_uint 1

abbrev pub read_u16 : Reader → Result Error (ℕ × Reader)
read_u16 = read_uint 2

abbrev pub read_u32 : Reader → Result Error (ℕ × Reader)
read_u32 = read_uint 4

abbrev pub read_u64 : Reader → Result Error (ℕ × Reader)
read_u64 = read_uint 8

unfoldable pub read_bool : Reader → Result Error (Bool × Reader)
unfolding read_uint
read_bool r = do (v, r') ← read_u8 r; ok (not (v == 0), r')

unfoldable pub read_bytes : Reader → Result Error (List ℕ × Reader)
unfolding read_uint
read_bytes r = do (len, r') ← read_u16 r; take_octets len r'

unfoldable pub read_items :
    {A : Type 0}
    → (Reader → Result Error (A × Reader))
    → ℕ
    → Reader
    → Result Error (List A × Reader)
read_items item zero r = ok ([], r)
read_items item (suc n) r = do
  (a, r') ← item r
  (rest, r'') ← read_items item n r'
  ok (a ∷ rest, r'')

unfoldable pub read_list :
    {A : Type 0} → (Reader → Result Error (A × Reader)) → Reader → Result Error (List A × Reader)
unfolding read_items
read_list item r = do (count, r') ← read_u16 r; read_items item count r'

-- The accumulator is what was written so far; `to_be` drops what exceeds the width.
abbrev pub Writer : Type 0
Writer = List ℕ

-- `write_int!`
unfoldable pub write_uint : ℕ → ℕ → Writer → Writer
write_uint width v w = w ++ to_be width v

abbrev pub write_u8 : ℕ → Writer → Writer
write_u8 = write_uint 1

abbrev pub write_u16 : ℕ → Writer → Writer
write_u16 = write_uint 2

abbrev pub write_u32 : ℕ → Writer → Writer
write_u32 = write_uint 4

abbrev pub write_u64 : ℕ → Writer → Writer
write_u64 = write_uint 8

unfoldable pub write_bool : Bool → Writer → Writer
write_bool b w = write_u8 (if b then 1 else 0) w

unfoldable pub write_raw : List ℕ → Writer → Writer
write_raw octets w = w ++ octets

-- `v.len() as u16`: the cast wraps.
unfoldable pub write_bytes : List ℕ → Writer → Writer
unfolding write_raw
write_bytes octets w = write_raw octets (write_u16 (length octets % 2 ^ 16) w)
