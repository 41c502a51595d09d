-- ===== src/Oca/Tests.antt =====
-- The allocator of object numbers at concrete inputs.
use dante_babel_box.Prelude.{◌≤◌, [], ◌∷◌, ◌≡◌, ◌↔◌, refl, arith}
use dante_babel_box.Prelude.Maps.{lookup, insert}
use dante_babel_box.Oca.{OcaClass}
use dante_babel_box.Oca.Allocator.{
  Key, key_eq, new, allocate, allocate_key, allocate_found, allocate_all, class_name,
}
use dante_babel_box.Oca.Allocator.Uniqueness.{allocate_key_unique}

abbrev gain : Key
gain = record { device_id = "x32-1"; channel = 1; class = "Gain"; role = "Ch 1 Gain" }

abbrev mute : Key
mute = record { device_id = "x32-1"; channel = 1; class = "Mute"; role = "Ch 1 Mute" }

first_number : (allocate new "x32-1" 1 OcaClass.gain "Ch 1 Gain").1 ≡ 1
unfolding allocate allocate_key allocate_found class_name key_eq new lookup insert
first_number = refl

allocate_key_unique_example :
    (((allocate_key (allocate_all (allocate_key (allocate_all new []) gain).0 (mute ∷ [])) mute).1
        ≡ (allocate_key (allocate_all new []) gain).1)
      ↔ (mute ≡ gain))
    × (1 ≤ (allocate_key (allocate_all new []) gain).1)
allocate_key_unique_example = allocate_key_unique [] (mute ∷ []) gain mute (omega arith)
