-- ===== src/Mbc/Broadcasts.antt =====
-- The broadcasts of codec.rs, read back.
use dante_babel_box.Prelude.{
  ℕ, suc, ◌+◌, ◌-◌, ◌*◌, ◌^◌, ◌<◌, Bool, true, false, not, some, List, [], ◌∷◌, ◌++◌, ◌≡◌, refl, ap,
  ◌∙◌, arith, length, ltb, ◌==◌, map,
}
use dante_babel_box.Prelude.Int.{ℤ, pos, negsuc}
use dante_babel_box.Prelude.Bytes.{to_be, of_be-to_be}
use dante_babel_box.Mbc.{Mac}
use dante_babel_box.Mbc.Elements.{
  headamp_channels, element_width, of_be_i16, to_be_i16, i16_elements, as_i16, as_u8, gain_db,
  phantom, clamp_gain, gain_octets, gain_broadcast, phantom_broadcast, switch_octet,
}

-- The range of a 16-bit signed integer.
IsI16 : ℤ → Type 0
IsI16 (pos n) = n < 2 ^ 15
IsI16 (negsuc n) = n < 2 ^ 15

of_be_i16-to_be_i16 :
    (x : ℤ) (rest : List ℕ) → IsI16 x → i16_elements (to_be_i16 x ++ rest) ≡ x ∷ i16_elements rest
unfolding IsI16 i16_elements to_be_i16 of_be_i16 to_be
of_be_i16-to_be_i16 (pos n) rest h =
    let back = of_be-to_be 2 n (omega arith) in rw (back, small n h) refl
  where
    small : (n : ℕ) → n < 2 ^ 15 → ltb n (2 ^ 15) ≡ true
    small n h = ground arith
of_be_i16-to_be_i16 (negsuc n) rest h =
    let back = of_be-to_be 2 (2 ^ 16 - 1 - n) (omega arith) in rw (back, large n h, twice n h) refl
  where
    large : (n : ℕ) → n < 2 ^ 15 → ltb (2 ^ 16 - 1 - n) (2 ^ 15) ≡ false
    large n h = ground arith

    twice : (n : ℕ) → n < 2 ^ 15 → 2 ^ 16 - 1 - (2 ^ 16 - 1 - n) ≡ n
    twice n h = omega arith

clamp_gain-IsI16 : (g : ℤ) → IsI16 (clamp_gain g)
unfolding IsI16 clamp_gain
clamp_gain-IsI16 g = ground arith

i16_elements-gain_octets : (gs : List ℤ) → i16_elements (gain_octets gs) ≡ map clamp_gain gs
unfolding gain_octets
i16_elements-gain_octets [] = unfold i16_elements in refl
i16_elements-gain_octets (g ∷ gs) =
    of_be_i16-to_be_i16 (clamp_gain g) (gain_octets gs) (clamp_gain-IsI16 g)
    ∙ ap (λ (t : List ℤ). clamp_gain g ∷ t) (i16_elements-gain_octets gs)

length-to_be_i16 : (x : ℤ) (rest : List ℕ) → length (to_be_i16 x ++ rest) ≡ 2 + length rest
unfolding to_be_i16 to_be
length-to_be_i16 (pos n) rest = omega arith
length-to_be_i16 (negsuc n) rest = omega arith

length-gain_octets : (gs : List ℤ) → length (gain_octets gs) ≡ 2 * length gs
unfolding gain_octets
length-gain_octets [] = omega arith
length-gain_octets (g ∷ gs) =
    omega (arith, length-to_be_i16 (clamp_gain g) (gain_octets gs), length-gain_octets gs)

-- A broadcast of 32 gains is read back as these gains, clamped to the range of the stagebox.
pub gain_db-gain_broadcast :
    (src_mac dst_mac : Mac) (gains : List ℤ)
    → length gains ≡ headamp_channels
    → gain_db (gain_broadcast src_mac dst_mac gains) ≡ some (map clamp_gain gains)
unfolding gain_db gain_broadcast as_i16 element_width
gain_db-gain_broadcast src_mac dst_mac gains h =
    rw (length-gain_octets gains, h, i16_elements-gain_octets gains) refl

length-map : (f : Bool → ℕ) (bs : List Bool) → length (map f bs) ≡ length bs
length-map f [] = refl
length-map f (b ∷ bs) = ap suc (length-map f bs)

switches : (bs : List Bool) → map (λ v. not (v == 0)) (map switch_octet bs) ≡ bs
switches [] = refl
switches (true ∷ bs) = ap (λ (t : List Bool). true ∷ t) (switches bs)
switches (false ∷ bs) = ap (λ (t : List Bool). false ∷ t) (switches bs)

-- A broadcast of 32 phantom switches is read back as these switches.
pub phantom-phantom_broadcast :
    (src_mac dst_mac : Mac) (bs : List Bool)
    → length bs ≡ headamp_channels
    → phantom (phantom_broadcast src_mac dst_mac bs) ≡ some bs
unfolding phantom phantom_broadcast as_u8 element_width
phantom-phantom_broadcast src_mac dst_mac bs h =
    rw (length-map switch_octet bs, h, switches bs) refl
