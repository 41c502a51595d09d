-- ===== src/Ocp1/Pdu/Framing.antt =====
-- `pdu_len` of pdu.rs on a growing buffer.
use dante_babel_box.Prelude.{
  length-take, take-append-drop, inr, inl, ◌⊎◌, ◌≢◌, ℕ, ◌+◌, ◌≤◌, ◌<◌, not, Option, none, some,
  List, ◌++◌, ◌≡◌, refl, ap, ◌∙◌, sym, arith, length, take, drop, ltb, ◌==◌, if◌then◌else◌, Result,
  ok, err, length-append, get_or-append,
}
use dante_babel_box.Prelude.Bytes.{of_be}
use dante_babel_box.Ocp1.{Error}
use dante_babel_box.Ocp1.Pdu.{
  sync_val, header_len, pdu_size_overhead, protocol_version, octet, size_field, version_field,
  pdu_len,
}

-- A frame that is found has a whole header, lies in the buffer, and begins with the sync value and
-- the version; its length is what its size field says.
pub pdu_len_sound :
    (buf : List ℕ) (n : ℕ)
    → pdu_len buf ≡ ok (some n)
    → (header_len ≤ n)
      × (n ≤ length buf)
      × (octet buf 0 ≡ sync_val)
      × (version_field buf ≡ protocol_version)
      × (n ≡ size_field buf + 1)
unfolding pdu_len of_be
pdu_len_sound buf n h = ground arith

pub octet-append :
    (buf more : List ℕ) (i : ℕ)
    → i < header_len
    → header_len ≤ length buf
    → octet (buf ++ more) i ≡ octet buf i
octet-append buf more i h k = get_or-append buf more i 0 (omega arith)

-- The answer on a whole header, from its fields.
unfoldable pub header_answer : ℕ → ℕ → ℕ → ℕ → Result Error (Option ℕ)
header_answer sync version size len =
    if not (sync == sync_val)
    then err (Error.bad_sync sync)
    else if not (version == protocol_version)
    then err (Error.bad_version version)
    else if ltb size pdu_size_overhead
    then err (Error.bad_length size)
    else if ltb len (size + 1)
    then ok none
    else ok (some (size + 1))

pub pdu_len-header_answer :
    (buf : List ℕ)
    → header_len ≤ length buf
    → pdu_len buf ≡ header_answer (octet buf 0) (version_field buf) (size_field buf) (length buf)
unfolding pdu_len header_answer
pdu_len-header_answer buf h = ground arith

module _ (buf more : List ℕ) (h : header_len ≤ length buf) where
  same : (i : ℕ) → i < header_len → octet (buf ++ more) i ≡ octet buf i
  same i k = octet-append buf more i k h

  version-append : version_field (buf ++ more) ≡ version_field buf
  version-append =
      let e1 = same 1 (omega arith) in let e2 = same 2 (omega arith) in rw (e1, e2) refl

  pub size-append : size_field (buf ++ more) ≡ size_field buf
  size-append =
      let e3 = same 3 (omega arith) in
      let e4 = same 4 (omega arith) in
      let e5 = same 5 (omega arith) in let e6 = same 6 (omega arith) in rw (e3, e4, e5, e6) refl

  pdu_len-append-fields :
      pdu_len (buf ++ more)
      ≡ header_answer (octet buf 0) (version_field buf) (size_field buf) (length buf + length more)
  pdu_len-append-fields =
      pdu_len-header_answer (buf ++ more) (omega (arith, length-append buf more))
      ∙ (rw (same 0 (omega arith), version-append, size-append, length-append buf more) refl)

decided-header_answer :
    (sync version size len more : ℕ)
    → (header_answer sync version size len ≡ ok none → ⊥)
    → header_answer sync version size (len + more) ≡ header_answer sync version size len
unfolding header_answer
decided-header_answer sync version size len more h = ground arith

-- What is decided on a buffer, a frame or an error, stays decided whatever arrives after it.
pub pdu_len-append :
    (buf more : List ℕ) → pdu_len buf ≢ ok none → pdu_len (buf ++ more) ≡ pdu_len buf
pdu_len-append buf more h = elim (le_or_lt header_len (length buf)) [
  | inl whole ↦
      pdu_len-append-fields buf more whole
      ∙ decided-header_answer (octet buf 0) (version_field buf) (size_field buf) (length buf)
          (length more) (λ k. h (pdu_len-header_answer buf whole ∙ k))
      ∙ sym (pdu_len-header_answer buf whole)
  | inr short ↦ absurd (h (waiting short))
]
  where
    waiting : length buf < header_len → pdu_len buf ≡ ok none
    waiting short = unfold pdu_len in ground arith

    le_or_lt : (a b : ℕ) → (a ≤ b) ⊎ (b < a)
    le_or_lt a b = omega arith

pub error_not_none : (x : Error) (r : Result Error (Option ℕ)) → r ≡ err x → r ≡ ok none → ⊥
error_not_none x r e q = grind arith

error_not_some : (x : Error) (n : ℕ) (r : Result Error (Option ℕ)) → r ≡ err x → r ≡ ok (some n) → ⊥
error_not_some x n r e q = grind arith

pub some_not_none : (n : ℕ) (r : Result Error (Option ℕ)) → r ≡ ok (some n) → r ≡ ok none → ⊥
some_not_none n r e q = grind arith

-- Any shorter part of a frame makes the reader wait for more bytes, and is no error.
pub pdu_len-take :
    (buf : List ℕ) (n k : ℕ) → pdu_len buf ≡ ok (some n) → k < n → pdu_len (take k buf) ≡ ok none
pdu_len-take buf n k h l = answer (pdu_len (take k buf)) refl
  where
    fits : k ≤ length buf
    fits = omega (arith, (pdu_len_sound buf n h).1)

    grown : pdu_len (take k buf) ≢ ok none → pdu_len (take k buf) ≡ ok (some n)
    grown decided =
        sym (pdu_len-append (take k buf) (drop k buf) decided)
        ∙ ap pdu_len (take-append-drop k buf)
        ∙ h

    answer :
        (r : Result Error (Option ℕ)) → pdu_len (take k buf) ≡ r → pdu_len (take k buf) ≡ ok none
    answer (ok none) e = e
    answer (err x) e = absurd (error_not_some x n _ e (grown (λ q. error_not_none x _ e q)))
    answer (ok (some m)) e = absurd (omega (arith, short, length-take k buf fits))
      where
        short : n ≤ length (take k buf)
        short = (pdu_len_sound (take k buf) n (grown (λ q. some_not_none m _ e q))).1
