-- ===== src/Bluez/Controllers/Removing.antt =====
-- onInterfacesRemoved, the callback of the udev monitor, and the properties that change.
use sdbus_cpp_examples.Prelude.{
  ℕ, Bool, true, Option, none, some, List, [], ◌∷◌, if◌then◌else◌, is_empty,
}
use sdbus_cpp_examples.Prelude.Text.{Text, text, text_eq}
use sdbus_cpp_examples.Prelude.Map.{lookup, insert, remove, text_key}
use sdbus_cpp_examples.Dbus.{Variants}
use sdbus_cpp_examples.EventLoop.{perform, retires}
use sdbus_cpp_examples.Bluez.Device1.{Properties, on_properties_changed}
use sdbus_cpp_examples.Bluez.Hidraw.Devices.{Udev, get_hidraw_devices}
use sdbus_cpp_examples.Bluez.Controllers.{Model, Controller, power_path}

-- `loop_.retire(std::move(input_reader_))`, if there is a reader.
unfoldable pub retire_reader : Option ℕ → Controller → Controller
retire_reader none c = c
retire_reader (some r) c = record c { input_reader = none; loop = perform (retires r) c.loop }

module _ (model : Model) where
  -- The part of onInterfacesRemoved for a device, its properties looked up.
  unfoldable pub remove_device : Text → Option Properties → Controller → Controller
  remove_device path none c = c
  remove_device path (some props) c = record c {
    devices = remove path c.devices;
    upower_clients =
        if is_empty (power_path model props)
        then c.upower_clients
        else remove (power_path model props) c.upower_clients;
  }

  unfoldable pub remove_interface : Text → Text → Controller → Controller
  remove_interface path interface c =
      if text_eq interface (text "org.bluez.Adapter1")
      then record c { adapters = remove path c.adapters }
      else if text_eq interface (text "org.bluez.Device1")
      then remove_device path (lookup path c.devices) c
      else if text_eq interface (text "org.bluez.Input1")
      then record c { inputs = remove path c.inputs }
      else c

  -- onInterfacesRemoved. To erase a key that is not there changes nothing, so the tests of the
  -- source are left to `remove`.
  unfoldable pub on_interfaces_removed : Text → List Text → Controller → Controller
  on_interfaces_removed path [] c = c
  on_interfaces_removed path (interface ∷ interfaces) c =
      on_interfaces_removed path interfaces (remove_interface path interface c)

  -- `if (!get_hidraw_devices(bt)) get_hidraw_devices(usb)`.
  unfoldable pub find_hidraws : Udev → Controller → Controller
  find_hidraws udev c =
      let (found_bt, ok) = get_hidraw_devices udev model.input_match_bt in
      let (found_usb, _) = get_hidraw_devices udev model.input_match_usb in
      record c { hidraws = if ok then found_bt else found_usb }

  -- The callback that the constructor gives to UdevMonitor.
  unfoldable pub on_udev_event : Udev → Text → Text → Controller → Controller
  on_udev_event udev action sub_system c =
      if text_eq sub_system (text "hidraw")
      then find_hidraws udev
          (if text_eq action (text "remove") then retire_reader c.input_reader c else c)
      else c

module _ (v : Variants) where
  open v use {Variant}

  -- Device1::onPropertiesChanged of a device in the map, looked up; it may throw.
  unfoldable pub change_device :
      Text → List (Text × Variant) → Option Properties → Controller → Controller × Bool
  change_device path changed none c = (c, true)
  change_device path changed (some props) c =
      let (props', ok) = on_properties_changed v changed props in
      (record c { devices = insert path props' c.devices }, ok)

  unfoldable pub device_changed : Text → List (Text × Variant) → Controller → Controller × Bool
  device_changed path changed c = change_device path changed (lookup path c.devices) c
