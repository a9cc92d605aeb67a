-- ===== src/Bluez/Client.antt =====
-- src/bluez/bluez_client.cc: the maps of all the objects that BlueZ announces. The objects are
-- without a state of interest, a device keeps its properties; whether a constructor throws is an
-- argument. A handler answers the state, and whether it ended without an exception.
pub mod Limits
use sdbus_cpp_examples.Prelude.{
  ℕ, Bool, true, false, not, ◌&&◌, ◌||◌, Option, none, some, List, [], ◌∷◌, if◌then◌else◌, length,
}
use sdbus_cpp_examples.Prelude.Text.{Text, text, text_eq}
use sdbus_cpp_examples.Prelude.Map.{has_key, insert, remove, text_key}
use sdbus_cpp_examples.Dbus.{Variants, get_property}
use sdbus_cpp_examples.ResourceLimits.{
  is_at_capacity, max_adapters, max_devices, max_gatt_services, max_gatt_characteristics,
  max_gatt_descriptors, max_battery_entries, max_input_entries,
}
use sdbus_cpp_examples.Bluez.Device1.{Properties, no_properties, on_properties_changed}

abbrev pub Objects : Type 0
Objects = List (Text × Unit {0})

-- The members of BluezClient; a `unique_ptr` to one object is whether it holds one.
pub record Client : Type 0 where
  pub adapters : Objects
  pub devices : List (Text × Properties)
  pub gatt_services : Objects
  pub gatt_characteristics : Objects
  pub gatt_descriptors : Objects
  pub batteries : Objects
  pub inputs : Objects
  pub battery_provider_manager : Bool
  pub gatt_manager : Bool
  pub le_advertising_manager : Bool
  pub media : Bool
  pub network_server : Bool

abbrev pub new_client : Client
new_client = record {
  adapters = [];
  devices = [];
  gatt_services = [];
  gatt_characteristics = [];
  gatt_descriptors = [];
  batteries = [];
  inputs = [];
  battery_provider_manager = false;
  gatt_manager = false;
  le_advertising_manager = false;
  media = false;
  network_server = false;
}

-- `if (!map.contains(path)) { if (IsAtCapacity(..)) continue; map[path] = ..; }`: the map, and
-- whether the constructor of the object did not throw. The object is `none` if it throws.
unfoldable pub add_new {ℓ} :
    {V : Type ℓ} → ℕ → Text → Option V → List (Text × V) → List (Text × V) × Bool
add_new limit path none m =
    if has_key path m
    then (m, true)
    else if is_at_capacity (length m) limit
    then (m, true)
    else (m, false)
add_new limit path (some object) m =
    if has_key path m
    then (m, true)
    else if is_at_capacity (length m) limit
    then (m, true)
    else (insert path object m, true)

-- The same for characteristics and descriptors, which replace the object that is there.
unfoldable pub add_or_replace {ℓ} :
    {V : Type ℓ} → ℕ → Text → Option V → List (Text × V) → List (Text × V) × Bool
add_or_replace limit path none m =
    if not (has_key path m) && is_at_capacity (length m) limit then (m, true) else (m, false)
add_or_replace limit path (some object) m =
    if not (has_key path m) && is_at_capacity (length m) limit
    then (m, true)
    else (insert path object m, true)

-- An object that another must name in a property: without it the interface is skipped.
unfoldable pub add_named {ℓ} :
    {V : Type ℓ} → Option Text → ℕ → Text → Option V → List (Text × V) → List (Text × V) × Bool
add_named none limit path object m = (m, true)
add_named (some name) limit path object m = add_or_replace limit path object m

abbrev pub object_if : Bool → Option (Unit {0})
object_if true = some tt
object_if false = none

abbrev pub device_if : Properties × Bool → Option Properties
device_if (props, true) = some props
device_if (props, false) = none

-- A map of the client written back.
abbrev pub with_adapters : Client → Objects × Bool → Client × Bool
with_adapters c (m, ok) = (record c { adapters = m }, ok)

abbrev pub with_devices : Client → List (Text × Properties) × Bool → Client × Bool
with_devices c (m, ok) = (record c { devices = m }, ok)

abbrev pub with_gatt_services : Client → Objects × Bool → Client × Bool
with_gatt_services c (m, ok) = (record c { gatt_services = m }, ok)

abbrev pub with_gatt_characteristics : Client → Objects × Bool → Client × Bool
with_gatt_characteristics c (m, ok) = (record c { gatt_characteristics = m }, ok)

abbrev pub with_gatt_descriptors : Client → Objects × Bool → Client × Bool
with_gatt_descriptors c (m, ok) = (record c { gatt_descriptors = m }, ok)

abbrev pub with_batteries : Client → Objects × Bool → Client × Bool
with_batteries c (m, ok) = (record c { batteries = m }, ok)

abbrev pub with_inputs : Client → Objects × Bool → Client × Bool
with_inputs c (m, ok) = (record c { inputs = m }, ok)

module _ (v : Variants) (makes : Text → Text → Bool) where
  open v use {Variant, get_object_path}

  -- One round of the loop of onInterfacesAdded; `makes interface path` is whether the object's
  -- constructor throws nothing. Device1's own constructor reads the properties.
  unfoldable pub add_interface : Text → Text → List (Text × Variant) → Client → Client × Bool
  add_interface path interface properties c =
      let made = makes interface path in
      let object = object_if made in
      if text_eq interface (text "org.freedesktop.DBus.Properties")
        || text_eq interface (text "org.freedesktop.DBus.Introspectable")
      then (c, true)
      else if text_eq interface (text "org.bluez.Adapter1")
      then with_adapters c (add_new max_adapters path object c.adapters)
      else if text_eq interface (text "org.bluez.Device1")
      then with_devices c (
          add_new max_devices path (device_if (on_properties_changed v properties no_properties))
            c.devices)
      else if text_eq interface (text "org.bluez.GattService1")
      then with_gatt_services c (add_new max_gatt_services path object c.gatt_services)
      else if text_eq interface (text "org.bluez.GattCharacteristic1")
      then with_gatt_characteristics c (
          add_named (get_property get_object_path properties (text "Service"))
            max_gatt_characteristics path object c.gatt_characteristics)
      else if text_eq interface (text "org.bluez.GattDescriptor1")
      then with_gatt_descriptors c (
          add_named (get_property get_object_path properties (text "Characteristic"))
            max_gatt_descriptors path object c.gatt_descriptors)
      else if text_eq interface (text "org.bluez.BatteryProviderManager1")
      then (record c { battery_provider_manager = c.battery_provider_manager || made }, made)
      else if text_eq interface (text "org.bluez.Battery1")
      then with_batteries c (add_new max_battery_entries path object c.batteries)
      else if text_eq interface (text "org.bluez.GattManager1")
      then (record c { gatt_manager = c.gatt_manager || made }, made)
      else if text_eq interface (text "org.bluez.Input1")
      then with_inputs c (add_new max_input_entries path object c.inputs)
      else if text_eq interface (text "org.bluez.LEAdvertisingManager1")
      then (record c { le_advertising_manager = c.le_advertising_manager || made }, made)
      else if text_eq interface (text "org.bluez.Media1")
      then (record c { media = c.media || made }, made)
      else if text_eq interface (text "org.bluez.NetworkServer1")
      then (record c { network_server = c.network_server || made }, made)
      else (c, true)

  abbrev pub unless_thrown : Client × Bool → (Client → Client × Bool) → Client × Bool
  unless_thrown (c, false) k = (c, false)
  unless_thrown (c, true) k = k c

  -- BluezClient::onInterfacesAdded.
  unfoldable pub on_interfaces_added :
      Text → List (Text × List (Text × Variant)) → Client → Client × Bool
  on_interfaces_added path [] c = (c, true)
  on_interfaces_added path ((interface, properties) ∷ interfaces) c =
      unless_thrown (add_interface path interface properties c)
        (λ c'. on_interfaces_added path interfaces c')

-- BluezClient::onInterfacesRemoved, one round of it and the loop. To erase a key that is not there
-- changes nothing, so the tests of the source are left to `remove`.
unfoldable pub remove_interface : Text → Text → Client → Client
remove_interface path interface c =
    if text_eq interface (text "org.bluez.Adapter1")
    then record c { adapters = remove path c.adapters }
    else if text_eq interface (text "org.bluez.Device1")
    then record c { devices = remove path c.devices }
    else if text_eq interface (text "org.bluez.GattService1")
    then record c { gatt_services = remove path c.gatt_services }
    else if text_eq interface (text "org.bluez.GattCharacteristic1")
    then record c { gatt_characteristics = remove path c.gatt_characteristics }
    else if text_eq interface (text "org.bluez.GattDescriptor1")
    then record c { gatt_descriptors = remove path c.gatt_descriptors }
    else if text_eq interface (text "org.bluez.Battery1")
    then record c { batteries = remove path c.batteries }
    else if text_eq interface (text "org.bluez.Input1")
    then record c { inputs = remove path c.inputs }
    else if text_eq interface (text "org.bluez.BatteryProviderManager1")
    then record c { battery_provider_manager = false }
    else if text_eq interface (text "org.bluez.GattManager1")
    then record c { gatt_manager = false }
    else if text_eq interface (text "org.bluez.LEAdvertisingManager1")
    then record c { le_advertising_manager = false }
    else if text_eq interface (text "org.bluez.Media1")
    then record c { media = false }
    else if text_eq interface (text "org.bluez.NetworkServer1")
    then record c { network_server = false }
    else c

unfoldable pub on_interfaces_removed : Text → List Text → Client → Client
on_interfaces_removed path [] c = c
on_interfaces_removed path (interface ∷ interfaces) c =
    on_interfaces_removed path interfaces (remove_interface path interface c)
