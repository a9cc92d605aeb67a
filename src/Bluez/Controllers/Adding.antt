-- ===== src/Bluez/Controllers/Adding.antt =====
-- onInterfacesAdded, and the constructor that runs it over the objects that exist already.
use sdbus_cpp_examples.Prelude.{
  ℕ, suc, Bool, true, false, not, ◌||◌, Option, none, some, List, [], ◌∷◌, if◌then◌else◌, length,
  is_empty,
}
use sdbus_cpp_examples.Prelude.Text.{Text, text, text_eq}
use sdbus_cpp_examples.Prelude.Map.{has_key, insert, text_key}
use sdbus_cpp_examples.Dbus.{Variants, get_property}
use sdbus_cpp_examples.ResourceLimits.{
  is_at_capacity, max_adapters, max_devices, max_input_entries, max_upower_clients,
}
use sdbus_cpp_examples.EventLoop.{Loop, perform, adds}
use sdbus_cpp_examples.Bluez.Device1.{
  parse_modalias, Properties, no_properties, on_properties_changed,
}
use sdbus_cpp_examples.Bluez.Hidraw.Devices.{Udev, find_hid_device}
use sdbus_cpp_examples.Bluez.Controllers.{
  Model, Controller, new_controller, is_ours, Outside, hidraw_device_key, power_path, unless_thrown,
}
use sdbus_cpp_examples.Bluez.Controllers.Removing.{find_hidraws}

module _ (o : Outside) where
  -- Each handler answers the state, and whether it ends without an exception.
  unfoldable pub add_adapter : Text → Controller → Controller × Bool
  add_adapter path c =
      if has_key path c.adapters
      then (c, true)
      else if is_at_capacity (length c.adapters) max_adapters
      then (c, true)
      else if not (o.makes_adapter path)
      then (c, false)
      else (record c { adapters = insert path tt c.adapters }, true)

  unfoldable pub add_input : Text → Controller → Controller × Bool
  add_input path c =
      if has_key path c.inputs
      then (c, true)
      else if is_at_capacity (length c.inputs) max_input_entries
      then (c, true)
      else if not (o.makes_input path)
      then (c, false)
      else (record c { inputs = insert path tt c.inputs }, true)

  unfoldable pub add_upower : Text → Controller → Controller × Bool
  add_upower path c =
      if is_empty path
      then (c, true)
      else if has_key path c.upower_clients
      then (c, true)
      else if is_at_capacity (length c.upower_clients) max_upower_clients
      then (c, true)
      else if not (o.makes_upower path)
      then (c, false)
      else (record c { upower_clients = insert path tt c.upower_clients }, true)

  -- `make_unique<InputReader>`, the test of the reader, and the registration at the loop.
  unfoldable pub open_reader : Text → Controller → Controller
  open_reader hidraw_device c =
      if o.opens_reader hidraw_device
      then record c {
        input_reader = some c.next;
        loop = perform (adds c.next) c.loop;
        next = suc c.next;
      }
      else record c { next = suc c.next }

  abbrev pub unless_reading : Option ℕ → Controller → Controller → Controller
  unless_reading none c opened = opened
  unless_reading (some r) c opened = c

  unfoldable pub start_reader : Text → Controller → Controller
  start_reader key c =
      let hidraw_device = find_hid_device c.hidraws key in
      if is_empty key
      then c
      else if is_empty hidraw_device
      then c
      else unless_reading c.input_reader c (open_reader hidraw_device c)

module _ (v : Variants) (model : Model) (o : Outside) where
  open v use {Variant, get_string}

  -- The device is constructed, or its constructor threw.
  unfoldable pub add_constructed : Text → Properties × Bool → Controller → Controller × Bool
  add_constructed path (props, false) c = (c, false)
  add_constructed path (props, true) c = add_upower o (power_path model props) (
      start_reader o (hidraw_device_key model props)
        (record c { devices = insert path props c.devices }))

  -- The branch of onInterfacesAdded for a device, its Modalias looked up.
  unfoldable pub add_matching :
      Text → List (Text × Variant) → Option Text → Controller → Controller × Bool
  add_matching path properties none c = (c, true)
  add_matching path properties (some mod_alias) c =
      if not (is_ours model (parse_modalias mod_alias))
      then (c, true)
      else if has_key path c.devices
      then (c, true)
      else if is_at_capacity (length c.devices) max_devices
      then (c, true)
      else add_constructed path (on_properties_changed v properties no_properties) c

  unfoldable pub add_device : Text → List (Text × Variant) → Controller → Controller × Bool
  add_device path properties c =
      add_matching path properties (get_property get_string properties (text "Modalias")) c

  -- One round of the loop of onInterfacesAdded.
  unfoldable pub add_interface :
      Text → Text → List (Text × Variant) → Controller → Controller × Bool
  add_interface path interface properties c =
      if text_eq interface (text "org.freedesktop.DBus.Properties")
        || text_eq interface (text "org.freedesktop.DBus.Introspectable")
      then (c, true)
      else if text_eq interface (text "org.bluez.Adapter1")
      then add_adapter o path c
      else if text_eq interface (text "org.bluez.Device1")
      then add_device path properties c
      else if text_eq interface (text "org.bluez.Input1")
      then add_input o path c
      else (c, true)

  -- onInterfacesAdded.
  unfoldable pub on_interfaces_added :
      Text → List (Text × List (Text × Variant)) → Controller → Controller × Bool
  on_interfaces_added path [] c = (c, true)
  on_interfaces_added path ((interface, properties) ∷ interfaces) c =
      unless_thrown (add_interface path interface properties c)
        (λ c'. on_interfaces_added path interfaces c')

  -- The loop of the constructor over GetManagedObjects().
  unfoldable pub add_objects :
      List (Text × List (Text × List (Text × Variant))) → Controller → Controller × Bool
  add_objects [] c = (c, true)
  add_objects ((object, interfaces) ∷ objects) c =
      unless_thrown (on_interfaces_added object interfaces c) (λ c'. add_objects objects c')

  unfoldable pub construct :
      Udev → List (Text × List (Text × List (Text × Variant))) → Loop → ℕ → Controller × Bool
  construct udev objects loop next =
      add_objects objects (find_hidraws model udev (new_controller loop next))
