-- ===== src/Core/ChannelScheme/Roles.antt =====
-- Role texts name one object each (channel_scheme.rs).
use dante_babel_box.Prelude.{ℕ, ◌^◌, ◌<◌, ◌≡◌, refl, ap, List, drop, arith}
use dante_babel_box.Prelude.Text.{codes, decimal_inj}
use dante_babel_box.Core.ChannelScheme.{Field, role_suffix, role, trim_role}

role_suffix_inj : (f g : Field) → role_suffix f ≡ role_suffix g → f ≡ g
unfolding role_suffix
role_suffix_inj Field.gain Field.gain e = refl
role_suffix_inj Field.phantom Field.phantom e = refl
role_suffix_inj Field.pad Field.pad e = refl
role_suffix_inj Field.gain Field.phantom e = cc
role_suffix_inj Field.gain Field.pad e = cc
role_suffix_inj Field.phantom Field.gain e = cc
role_suffix_inj Field.phantom Field.pad e = cc
role_suffix_inj Field.pad Field.gain e = cc
role_suffix_inj Field.pad Field.phantom e = cc

-- Two channels of a `u16` range and two fields with the same role text are the same.
pub role_inj :
    (c d : ℕ) (f g : Field) → c < 2 ^ 16 → d < 2 ^ 16 → role c f ≡ role d g → (c ≡ d) × (f ≡ g)
unfolding role
role_inj c d f g hc hd e =
    let (same, rest) =
      decimal_inj c d (role_suffix f) (role_suffix g) (omega arith) (omega arith)
        (ap (λ (t : List ℕ). drop 3 t) e) in
    (same, role_suffix_inj f g rest)

pub trim_role_inj : (c d : ℕ) → c < 2 ^ 16 → d < 2 ^ 16 → trim_role c ≡ trim_role d → c ≡ d
unfolding trim_role
trim_role_inj c d hc hd e =
    let (same, rest) =
      decimal_inj c d (codes "Trim") (codes "Trim") (omega arith) (omega arith)
        (ap (λ (t : List ℕ). drop 3 t) e) in
    same
