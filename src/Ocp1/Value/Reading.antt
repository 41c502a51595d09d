-- ===== src/Ocp1/Value/Reading.antt =====
-- value.rs: what the reading methods give of what the writing methods wrote.
use dante_babel_box.Prelude.{
  ℕ, ◌+◌, ◌%◌, ◌^◌, ◌<◌, true, List, [], ◌∷◌, ◌++◌, ◌≡◌, refl, sym, ap, arith, length, leb, ok,
  length-append, take-append, drop-append,
}
use dante_babel_box.Prelude.Bytes.{to_be, length-to_be, of_be-to_be}
use dante_babel_box.Ocp1.Value.{
  Reader, remaining, take_octets, read_uint, read_bytes, write_uint, write_bytes, write_raw,
}

-- A cursor between what was read and what is left.
abbrev pub at : List ℕ → List ℕ → Reader
at seen rest = record { buf = seen ++ rest; pos = length seen }

pub ++_assoc : (a b c : List ℕ) → (a ++ b) ++ c ≡ a ++ (b ++ c)
++_assoc [] b c = refl
++_assoc (x ∷ a) b c = ap (λ (t : List ℕ). x ∷ t) (++_assoc a b c)

at-++ :
    (seen xs ys : List ℕ)
    → record (at seen (xs ++ ys)) { pos = length seen + length xs } ≡ at (seen ++ xs) ys
at-++ seen xs ys = rw (++_assoc seen xs ys, length-append seen xs) refl

pub remaining-at : (seen rest : List ℕ) → remaining (at seen rest) ≡ rest
unfolding remaining
remaining-at seen rest = drop-append seen rest

pub take_octets-at :
    (seen xs ys : List ℕ)
    → take_octets (length xs) (at seen (xs ++ ys)) ≡ ok (xs, at (seen ++ xs) ys)
unfolding take_octets
take_octets-at seen xs ys =
    rw (fits, remaining-at seen (xs ++ ys), take-append xs ys, at-++ seen xs ys) refl
  where
    fits : leb (length seen + length xs) (length (seen ++ (xs ++ ys))) ≡ true
    fits = ground (arith, length-append seen (xs ++ ys), length-append xs ys)

pub read_uint-at :
    (width v : ℕ) (seen ys : List ℕ)
    → v < 256 ^ width
    → read_uint width (at seen (to_be width v ++ ys)) ≡ ok (v, at (seen ++ to_be width v) ys)
unfolding read_uint
read_uint-at width v seen ys h = rw (read width (length-to_be width v), of_be-to_be width v h) refl
  where
    read :
        (n : ℕ)
        → length (to_be width v) ≡ n
        → take_octets n (at seen (to_be width v ++ ys))
          ≡ ok (to_be width v, at (seen ++ to_be width v) ys)
    read n e = rw (sym e) (take_octets-at seen (to_be width v) ys)

-- A length-prefixed octet string of at most 65535 octets is read back, whatever stands around it.
pub read_bytes-at :
    (seen octets ys : List ℕ)
    → length octets < 2 ^ 16
    → read_bytes (at seen (write_bytes octets [] ++ ys))
      ≡ ok (octets, at (seen ++ write_bytes octets []) ys)
unfolding read_bytes write_bytes write_raw write_uint
read_bytes-at seen octets ys h =
    rw
      (
        ++_assoc (to_be 2 (length octets % 2 ^ 16)) octets ys,
        read_uint-at 2 (length octets % 2 ^ 16) seen (octets ++ ys) (omega arith),
        fits (length octets) h,
        take_octets-at (seen ++ to_be 2 (length octets)) octets ys,
        ++_assoc seen (to_be 2 (length octets)) octets,
      )
      refl
  where
    fits : (n : ℕ) → n < 2 ^ 16 → n % 2 ^ 16 ≡ n
    fits n k = omega arith

-- An octet string longer than that is written whole behind a length that has wrapped, so that it is
-- read back cut short, with the rest of it left for the next field.
pub read_bytes_wrapped :
    (head tail ys : List ℕ)
    → length head < 2 ^ 16
    → length tail ≡ 2 ^ 16
    → read_bytes (at [] (write_bytes (head ++ tail) [] ++ ys))
      ≡ ok (head, at (write_bytes head []) (tail ++ ys))
unfolding read_bytes write_bytes write_raw write_uint
read_bytes_wrapped head tail ys h k =
    rw
      (
        ++_assoc (to_be 2 (length (head ++ tail) % 2 ^ 16)) (head ++ tail) ys,
        read_uint-at 2 (length (head ++ tail) % 2 ^ 16) [] ((head ++ tail) ++ ys) (omega arith),
        wrapped,
        short (length head) h,
        ++_assoc head tail ys,
        take_octets-at (to_be 2 (length head)) head (tail ++ ys),
      )
      refl
  where
    wrapped : length (head ++ tail) % 2 ^ 16 ≡ length head
    wrapped = omega (arith, length-append head tail)

    short : (n : ℕ) → n < 2 ^ 16 → n % 2 ^ 16 ≡ n
    short n l = omega arith
