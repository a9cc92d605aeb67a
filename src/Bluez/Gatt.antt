-- ===== src/Bluez/Gatt.antt =====
-- The objects of a GATT server: src/bluez/gatt_service1.h, gatt_characteristic1.h and
-- gatt_descriptor1.h. Their constructors read the properties they are given, in the order of the map.
pub mod Order
pub mod Branches
pub mod Notify
use sdbus_cpp_examples.Prelude.{
  ℕ, Bool, true, false, Option, none, some, List, [], ◌∷◌, if◌then◌else◌, ◌||◌, bind,
}
use sdbus_cpp_examples.Prelude.Text.{Text, text, text_eq}
use sdbus_cpp_examples.Prelude.Map.{lookup, insert, text_key}
use sdbus_cpp_examples.Dbus.{Variants}
use sdbus_cpp_examples.Dbus.Tables.{Table, Setter, field, on_changed}

-- `std::ranges::find` in a vector of strings.
unfoldable pub has_text : Text → List Text → Bool
has_text t [] = false
has_text t (s ∷ ss) = text_eq s t || has_text t ss

-- A constructor: no object if the loop throws.
abbrev pub constructed : {P : Type 0} → P × Bool → Option P
constructed (p, true) = some p
constructed (p, false) = none

-- GattCharacteristic1::Properties.
pub record Characteristic : Type 0 where
  pub flags : List Text
  pub notify_acquired : Bool
  pub notifying : Bool
  pub service : Text
  pub uuid : Text
  pub value : List ℕ

abbrev pub no_characteristic : Characteristic
no_characteristic = record {
  flags = [];
  notify_acquired = false;
  notifying = false;
  service = [];
  uuid = [];
  value = [];
}

unfoldable pub is_notify_flag_set : Characteristic → Bool
is_notify_flag_set p = has_text (text "notify") p.flags

-- A branch that is guarded by isNotifyFlagSet.
abbrev pub if_notify : {V : Type 0} → Setter V Characteristic → Setter V Characteristic
if_notify setter value p = if is_notify_flag_set p then setter value p else some p

-- GattDescriptor1::Properties.
pub record Descriptor : Type 0 where
  pub characteristic : Text
  pub descriptor_uuid : Text
  pub descriptor_value : List ℕ

-- GattService1::Properties, and its map of characteristics, whose pointers may be null.
pub record Service : Type 0 where
  pub device : Text
  pub includes : List Text
  pub primary : Bool
  pub service_uuid : Text
  pub gatt_characteristics : List (Text × Option Characteristic)

module _ (v : Variants) where
  open v use {
    Variant, get_string, get_object_path, get_bool, get_bytes, get_strings, get_object_paths,
  }

  unfoldable pub set_flags : Setter Variant Characteristic
  set_flags = field get_strings (λ x p. record p { flags = x })

  unfoldable pub set_notify_acquired : Setter Variant Characteristic
  set_notify_acquired = if_notify (field get_bool (λ x p. record p { notify_acquired = x }))

  unfoldable pub set_notifying : Setter Variant Characteristic
  set_notifying = if_notify (field get_bool (λ x p. record p { notifying = x }))

  unfoldable pub characteristic_table : Table Variant Characteristic
  characteristic_table =
      (text "Flags", set_flags)
      ∷ (text "NotifyAcquired", set_notify_acquired)
      ∷ (text "Notifying", set_notifying)
      ∷ (text "Service", field get_object_path (λ x p. record p { service = x }))
      ∷ (text "UUID", field get_string (λ x p. record p { uuid = x }))
      ∷ (text "Value", field get_bytes (λ x p. record p { value = x }))
      ∷ []

  -- GattCharacteristic1::GattCharacteristic1.
  unfoldable pub gatt_characteristic : List (Text × Variant) → Option Characteristic
  gatt_characteristic properties =
      constructed (on_changed characteristic_table properties no_characteristic)

  unfoldable pub descriptor_table : Table Variant Descriptor
  descriptor_table =
      (text "Characteristic", field get_object_path (λ x p. record p { characteristic = x }))
      ∷ (text "UUID", field get_string (λ x p. record p { descriptor_uuid = x }))
      ∷ (text "Value", field get_bytes (λ x p. record p { descriptor_value = x }))
      ∷ []

  -- GattDescriptor1::GattDescriptor1.
  unfoldable pub gatt_descriptor : List (Text × Variant) → Option Descriptor
  gatt_descriptor properties = constructed (
      on_changed descriptor_table properties
        (record { characteristic = []; descriptor_uuid = []; descriptor_value = [] }))

  unfoldable pub service_table : Table Variant Service
  service_table =
      (text "Device", field get_object_path (λ x p. record p { device = x }))
      ∷ (text "Includes", field get_object_paths (λ x p. record p { includes = x }))
      ∷ (text "Primary", field get_bool (λ x p. record p { primary = x }))
      ∷ (text "UUID", field get_string (λ x p. record p { service_uuid = x }))
      ∷ []

  -- GattService1::GattService1.
  unfoldable pub gatt_service : List (Text × Variant) → Option Service
  gatt_service properties = constructed (
      on_changed service_table properties (record {
        device = [];
        includes = [];
        primary = false;
        service_uuid = [];
        gatt_characteristics = [];
      }))

  -- GattService1::AddCharacteristic: the service after it, and whether nothing was thrown.
  unfoldable pub add_characteristic : Text → List (Text × Variant) → Service → Service × Bool
  add_characteristic path properties s = elim (gatt_characteristic properties) [
    | none ↦ (s, false)
    | some c ↦
        (record s { gatt_characteristics = insert path (some c) s.gatt_characteristics }, true)
  ]

-- GattService1::getCharacteristic: `map[path]` makes an entry, with a null pointer, where there is none.
unfoldable pub get_characteristic : Text → Service → Option Characteristic × Service
get_characteristic path s = elim (lookup path s.gatt_characteristics) [
  | none ↦ (none, record s { gatt_characteristics = insert path none s.gatt_characteristics })
  | some c ↦ (c, s)
]
