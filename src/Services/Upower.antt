-- ===== src/Services/Upower.antt =====
-- src/upower/upower_client.h: the power devices that are there, or the one that a filter names.
pub mod DisplayDevice
pub mod Filtered
use sdbus_cpp_examples.Prelude.{
  Bool, true, false, List, [], ◌∷◌, if◌then◌else◌, ◌||◌, ◌&&◌, is_empty, Option, none, some,
}
use sdbus_cpp_examples.Prelude.Text.{Text, text_eq}
use sdbus_cpp_examples.Prelude.Map.{lookup, has_key, insert, remove, text_key}
use sdbus_cpp_examples.Dbus.{Variants}
use sdbus_cpp_examples.Services.Objects.{unless_thrown}
use DisplayDevice.{
  Properties, no_properties, on_properties_changed, Reply, failed, answered, on_get_all,
}

-- The members of UPowerClient; a device stands for its properties.
pub record Client : Type 0 where
  pub device_filter : Text
  pub devices : List (Text × Properties)

abbrev pub new_client : Text → Client
new_client filter = record { device_filter = filter; devices = [] }

-- `device_filter_.empty() || device_filter_ == device`.
unfoldable pub is_wanted : Text → Text → Bool
is_wanted filter device = is_empty filter || text_eq filter device

-- UPowerClient::onDeviceAdded, and whether nothing was thrown: the constructor of the device, which
-- registers its proxy and asks for the properties, may throw, and then the map gets no entry.
unfoldable pub on_device_added : Bool → Text → Client → Client × Bool
on_device_added made device c =
    if is_wanted c.device_filter device
    then (if has_key device c.devices
        then (c, true)
        else (if made
            then (record c { devices = insert device no_properties c.devices }, true)
            else (c, false)))
    else (c, true)

-- UPowerClient::onDeviceRemoved.
unfoldable pub on_device_removed : Text → Client → Client
on_device_removed device c =
    if is_wanted c.device_filter device
    then (if has_key device c.devices then record c { devices = remove device c.devices } else c)
    else c

-- The loop over the enumeration, which an exception of onDeviceAdded ends.
unfoldable pub add_all : (Text → Bool) → List Text → Client → Client × Bool
add_all makes [] c = (c, true)
add_all makes (device ∷ devices) c =
    unless_thrown (on_device_added (makes device) device c) (λ c'. add_all makes devices c')

-- The callback of EnumerateDevices.
unfoldable pub on_devices : (Text → Bool) → Reply (List Text) → Client → Client × Bool
on_devices makes failed c = (c, true)
on_devices makes (answered devices) c = add_all makes devices c

-- What reaches the client and its devices. A reply or a signal for a device that is gone is not
-- delivered, because its destructor unregisters its proxy. An event that may construct a device says
-- whether the constructor of each succeeds.
pub data Event (V : Type 0) : Type 0 where
  enumerated : (Text → Bool) → Reply (List Text) → Event V
  added : Bool → Text → Event V
  removed : Text → Event V
  all_properties : Text → Reply (List (Text × V)) → Event V
  properties_changed : Text → List (Text × V) → Event V

-- A device's handler on its entry.
unfoldable pub at_device : Text → (Properties → Properties) → Client → Client
at_device device f c = elim (lookup device c.devices) [
  | none ↦ c
  | some p ↦ record c { devices = insert device (f p) c.devices }
]

module _ (v : Variants) where
  -- The client after an event, and whether no constructor threw in it.
  unfoldable pub handle : Event v.Variant → Client → Client × Bool
  handle (enumerated makes reply) c = on_devices makes reply c
  handle (added made device) c = on_device_added made device c
  handle (removed device) c = (on_device_removed device c, true)
  handle (all_properties device reply) c = (at_device device (λ p. on_get_all v reply p) c, true)
  handle (properties_changed device changed) c =
      (at_device device (λ p. (on_properties_changed v changed p).0) c, true)

  -- The connection contains what a handler throws, and the client goes on with the next event.
  unfoldable pub run : List (Event v.Variant) → Client → Client × Bool
  run [] c = (c, true)
  run (e ∷ events) c = let r = handle e c in let rest = run events r.0 in (rest.0, r.1 && rest.1)
