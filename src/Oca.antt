-- ===== src/Oca.antt =====
-- crates/oca/src: the internal object model, of value.rs and object.rs. A device id is a text; a
-- role is the bytes of its text.
-- Floating-point numbers are a type parameter `F`: this crate only stores and compares them.
pub mod Allocator
mod Tests
use dante_babel_box.Prelude.{
  ℕ, String, Bool, true, false, Option, none, some, List, ◌==◌, ◌&&◌, str_eq, ◌≡◌, ◌↔◌, arith,
  eq_iff,
}
use dante_babel_box.Prelude.Int.{ℤ, eqb_ℤ}

-- `Ono(pub u32)`
abbrev pub Ono : Type 0
Ono = ℕ

pub data OcaClass : Type 0 where
  gain mute switch polarity delay basic_sensor level_sensor audio_level_sensor boolean_sensor
        int32_sensor string_sensor :
      OcaClass

unfoldable pub is_sensor : OcaClass → Bool
is_sensor OcaClass.gain = false
is_sensor OcaClass.mute = false
is_sensor OcaClass.switch = false
is_sensor OcaClass.polarity = false
is_sensor OcaClass.delay = false
is_sensor other = true

pub data OcaValue (F : Type 0) : Type 0 where
  f32 : F → OcaValue F
  i32 : ℤ → OcaValue F
  bool : Bool → OcaValue F
  string : String → OcaValue F

unfoldable pub as_f32 : {F : Type 0} → OcaValue F → Option F
as_f32 (OcaValue.f32 v) = some v
as_f32 other = none

unfoldable pub as_bool : {F : Type 0} → OcaValue F → Option Bool
as_bool (OcaValue.bool v) = some v
as_bool other = none

bool_eq : Bool → Bool → Bool
bool_eq true b = b
bool_eq false true = false
bool_eq false false = true

-- The derived `PartialEq`, over the comparison of floats.
unfoldable pub value_eq : {F : Type 0} → (F → F → Bool) → OcaValue F → OcaValue F → Bool
unfolding bool_eq
value_eq feq (OcaValue.f32 a) (OcaValue.f32 b) = feq a b
value_eq feq (OcaValue.i32 a) (OcaValue.i32 b) = eqb_ℤ a b
value_eq feq (OcaValue.bool a) (OcaValue.bool b) = bool_eq a b
value_eq feq (OcaValue.string a) (OcaValue.string b) = str_eq a b
value_eq feq a b = false

pub record OcaObjectDescriptor : Type 0 where
  pub ono : Ono
  pub class : OcaClass
  pub role : List ℕ
  pub settable : Bool

pub record OcaObject (F : Type 0) : Type 0 where
  pub ono : Ono
  pub class : OcaClass
  pub role : List ℕ
  pub settable : Bool
  pub value : OcaValue F

pub record OcaAddress : Type 0 where
  pub device_id : String
  pub ono : Ono

unfoldable pub address_eq : OcaAddress → OcaAddress → Bool
address_eq a b = str_eq a.device_id b.device_id && a.ono == b.ono

pub record OcaEvent (F : Type 0) : Type 0 where
  pub address : OcaAddress
  pub object : OcaObject F

pub address_eq_iff : (a b : OcaAddress) → (address_eq a b ≡ true) ↔ (a ≡ b)
unfolding address_eq
address_eq_iff a b = ground (arith, eq_iff a.device_id b.device_id)
