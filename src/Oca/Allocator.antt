-- ===== src/Oca/Allocator.antt =====
-- crates/oca/src/ono.rs: the allocator of object numbers.
pub mod Uniqueness
use dante_babel_box.Prelude.{
  ℕ, zero, suc, ◌+◌, ◌%◌, ◌^◌, ◌≤◌, ◌<◌, String, Bool, true, false, ◌&&◌, Option, none, some, List,
  [], ◌∷◌, ◌≡◌, ◌≢◌, ◌↔◌, ◌⊎◌, inl, inr, refl, sym, ◌∙◌, arith, length, str_eq, eq_iff, ◌==◌,
  if◌then◌else◌, Option-cases, All,
}
use dante_babel_box.Prelude.Maps.{lookup, insert, lookup-insert}
use dante_babel_box.Oca.{Ono, OcaClass}

-- The key of `assigned`; the class stands there as its name.
pub record Key : Type 0 where
  pub device_id : String
  pub channel : ℕ
  pub class : String
  pub role : String

-- `format!("{class:?}")`
unfoldable pub class_name : OcaClass → String
class_name OcaClass.gain = "Gain"
class_name OcaClass.mute = "Mute"
class_name OcaClass.switch = "Switch"
class_name OcaClass.polarity = "Polarity"
class_name OcaClass.delay = "Delay"
class_name OcaClass.basic_sensor = "BasicSensor"
class_name OcaClass.level_sensor = "LevelSensor"
class_name OcaClass.audio_level_sensor = "AudioLevelSensor"
class_name OcaClass.boolean_sensor = "BooleanSensor"
class_name OcaClass.int32_sensor = "Int32Sensor"
class_name OcaClass.string_sensor = "StringSensor"

unfoldable pub key_eq : Key → Key → Bool
key_eq a b =
    str_eq a.device_id b.device_id
    && a.channel == b.channel
    && str_eq a.class b.class
    && str_eq a.role b.role

pub record OnoAllocator : Type 0 where
  pub next : ℕ
  pub assigned : List (Key × Ono)

-- 0 is reserved.
unfoldable pub new : OnoAllocator
new = record { next = 1; assigned = [] }

unfoldable pub allocate_found : OnoAllocator → Key → Option Ono → OnoAllocator × Ono
allocate_found a key (some ono) = (a, ono)
allocate_found a key none = (
  record { next = (a.next + 1) % 2 ^ 32; assigned = insert key_eq key a.next a.assigned },
  a.next,
)

unfoldable pub allocate_key : OnoAllocator → Key → OnoAllocator × Ono
unfolding allocate_found key_eq
allocate_key a key = allocate_found a key (lookup key_eq key a.assigned)

unfoldable pub allocate : OnoAllocator → String → ℕ → OcaClass → String → OnoAllocator × Ono
unfolding allocate_key class_name
allocate a device_id channel class role =
    allocate_key a
      (record { device_id = device_id; channel = channel; class = class_name class; role = role })

-- The allocator after the numbers of some keys were asked for.
unfoldable pub allocate_all : OnoAllocator → List Key → OnoAllocator
allocate_all a [] = a
allocate_all a (k ∷ ks) = allocate_all (allocate_key a k).0 ks
