-- ===== src/Mbc/Envelope.antt =====
-- A block in its ConMon envelope is found again.
use dante_babel_box.Prelude.{
  sym, ℕ, ◌+◌, ◌-◌, ◌<◌, true, false, none, some, List, [], ◌∷◌, ◌≡◌, refl, ap, arith, length, take,
  drop, get_or, ltb, leb, ◌==◌, if◌then◌else◌,
}
use dante_babel_box.Prelude.Bytes.{to_be, of_be}
use dante_babel_box.Mbc.{MbcBlock, encode, before_checksum}
use dante_babel_box.Mbc.RoundTrip.{IsBlock, length-encode, decode_exact-encode}
use dante_babel_box.Mbc.Conmon.{
  Eui64, wrap_conmon, vendor_high, vendor_payload_end, declared_block_len, first_block, starts_from,
  blocks_at, region_end, blocks_in_conmon_payload, min_ℕ,
}

take_all : (xs : List ℕ) → take (length xs) xs ≡ xs
take_all [] = refl
take_all (x ∷ xs) = ap (λ (t : List ℕ). x ∷ t) (take_all xs)

module _ (sequence : ℕ) (eui : Eui64) (class : ℕ) where
  length-wrap_conmon :
      (block : List ℕ) → length (wrap_conmon block sequence eui class) ≡ 42 + length block
  unfolding wrap_conmon to_be
  length-wrap_conmon block = omega arith

  vendor_high-wrap_conmon :
      (block : List ℕ)
      → length block < 255
      → vendor_high (wrap_conmon block sequence eui class) ≡ length block + 1
  unfolding wrap_conmon to_be of_be
  vendor_high-wrap_conmon block h = omega (arith, h)

  -- The envelope says where its block ends, for a block of at most 254 octets.
  pub vendor_payload_end-wrap_conmon :
      (block : List ℕ)
      → length block < 255
      → vendor_payload_end (wrap_conmon block sequence eui class) ≡ some (42 + length block)
  unfolding vendor_payload_end
  vendor_payload_end-wrap_conmon block h =
      rw (length-wrap_conmon block, vendor_high-wrap_conmon block h) (answer (length block))
    where
      answer :
          (n : ℕ)
          → (if ltb (42 + n) 42
              then none
              else if n + 1 == 0
              then none
              else if leb (42 + (n + 1 - 1)) (42 + n)
              then some (42 + (n + 1 - 1))
              else none)
            ≡ some (42 + n)
      answer n = ground arith

  -- Of a block of 255 octets the envelope does not tell the end any more: the length plus one has
  -- wrapped to nothing.
  pub vendor_payload_end_wrapped :
      (block : List ℕ)
      → length block ≡ 255
      → vendor_payload_end (wrap_conmon block sequence eui class) ≡ none
  unfolding vendor_payload_end
  vendor_payload_end_wrapped block h = rw (nothing, long) refl
    where
      nothing : vendor_high (wrap_conmon block sequence eui class) ≡ 0
      nothing = unfold wrap_conmon to_be of_be in omega (arith, h)

      long : ltb (length (wrap_conmon block sequence eui class)) 42 ≡ false
      long = ground (arith, length-wrap_conmon block)

declared_block_len-encode :
    (b : MbcBlock)
    → length b.data_octets < 225
    → declared_block_len (encode b) ≡ some (length (encode b))
unfolding declared_block_len
declared_block_len-encode b h = rw (long, field, length-encode b) (sum (length b.data_octets))
  where
    sum : (n : ℕ) → some (20 + (10 + n)) ≡ some (30 + n)
    sum n = ap some (omega arith)

    long : ltb (length (encode b)) 24 ≡ false
    long = ground (arith, length-encode b)

    field : of_be (get_or (encode b) 4 0 ∷ get_or (encode b) 5 0 ∷ []) ≡ 10 + length b.data_octets
    field = unfold encode before_checksum to_be of_be in omega (arith, h)

first_block-encode :
    (b : MbcBlock) → IsBlock b → first_block (encode b) (some (length (encode b))) ≡ some b
unfolding first_block
first_block-encode b h =
    rw (fits (length (encode b)), take_all (encode b), decode_exact-encode b h) refl
  where
    fits : (n : ℕ) → leb n n ≡ true
    fits n = ground arith

-- A block of at most 224 octets of data whose numbers fit their widths is the one block that is
-- found in its envelope, if the magic stands nowhere else in the packet.
pub blocks_in_conmon_payload-wrap_conmon :
    (b : MbcBlock) (sequence : ℕ) (eui : Eui64) (class : ℕ)
    → IsBlock b
    → length b.data_octets < 225
    → starts_from 0 (wrap_conmon (encode b) sequence eui class) ≡ 42 ∷ []
    → blocks_in_conmon_payload (wrap_conmon (encode b) sequence eui class) ≡ b ∷ []
unfolding blocks_in_conmon_payload
blocks_in_conmon_payload-wrap_conmon b sequence eui class h small once =
    rw (vendor_payload_end-wrap_conmon sequence eui class (encode b) short, whole, once) found
  where
    payload : List ℕ
    payload = wrap_conmon (encode b) sequence eui class

    short : length (encode b) < 255
    short = omega (arith, length-encode b, small)

    whole : take (region_end payload (some (42 + length (encode b)))) payload ≡ payload
    whole =
        rw (length-wrap_conmon sequence eui class (encode b), fits (42 + length (encode b)))
          (all (42 + length (encode b)) (length-wrap_conmon sequence eui class (encode b)))
      where
        fits : (n : ℕ) → min_ℕ n n ≡ n
        fits n = ground arith

        all : (n : ℕ) → length payload ≡ n → take n payload ≡ payload
        all n e = rw (sym e) (take_all payload)

    slice : drop 42 (take (length payload) payload) ≡ encode b
    slice = rw (take_all payload) (unfold wrap_conmon to_be in refl)

    found : blocks_at payload (42 ∷ []) ≡ b ∷ []
    found =
        unfold blocks_at in
        rw (slice, declared_block_len-encode b small, first_block-encode b h) refl
