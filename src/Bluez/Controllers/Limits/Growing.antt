-- ===== src/Bluez/Controllers/Limits/Growing.antt =====
-- The limits of src/utils/resource_limits.h over what is added to a controller.
use sdbus_cpp_examples.Prelude.{
  ℕ, ◌≤◌, ◌≡◌, Bool, true, false, not, Option, none, some, List, [], ◌∷◌, if◌then◌else◌, if_rule,
  length, is_empty, arith,
}
use sdbus_cpp_examples.Prelude.Text.{Text, text}
use sdbus_cpp_examples.Prelude.Map.{has_key, text_key}
use sdbus_cpp_examples.Dbus.{Variants, get_property}
use sdbus_cpp_examples.ResourceLimits.{
  is_at_capacity, max_adapters, max_devices, max_input_entries, max_upower_clients,
  length-insert_guarded,
}
use sdbus_cpp_examples.Bluez.Device1.{parse_modalias, Properties}
use sdbus_cpp_examples.Bluez.Hidraw.Devices.{find_hid_device}
use sdbus_cpp_examples.Bluez.Controllers.{
  Model, Controller, is_ours, Outside, hidraw_device_key, power_path, unless_thrown,
}
use sdbus_cpp_examples.Bluez.Controllers.Adding.{
  add_adapter, add_input, add_upower, open_reader, unless_reading, start_reader, add_constructed,
  add_matching, add_device, add_interface, on_interfaces_added, add_objects,
}

abbrev pub Within : Controller → Type 0
Within c =
    (length c.adapters ≤ max_adapters)
    × (length c.devices ≤ max_devices)
    × (length c.inputs ≤ max_input_entries)
    × (length c.upower_clients ≤ max_upower_clients)

add_adapter-Within :
    (o : Outside) (path : Text) (c : Controller) → Within c → Within (add_adapter o path c).0
unfolding add_adapter
add_adapter-Within o path c h =
    ground (arith, length-insert_guarded max_adapters path tt c.adapters)

add_input-Within :
    (o : Outside) (path : Text) (c : Controller) → Within c → Within (add_input o path c).0
unfolding add_input
add_input-Within o path c h =
    ground (arith, length-insert_guarded max_input_entries path tt c.inputs)

add_upower-Within :
    (o : Outside) (path : Text) (c : Controller) → Within c → Within (add_upower o path c).0
unfolding add_upower
add_upower-Within o path c h =
    ground (arith, length-insert_guarded max_upower_clients path tt c.upower_clients)

start_reader-Within :
    (o : Outside) (key : Text) (c : Controller) → Within c → Within (start_reader o key c)
unfolding start_reader open_reader
start_reader-Within o key c h = reading c.input_reader
  where
    reading :
        (r : Option ℕ)
        → Within (
            if is_empty key
            then c
            else if is_empty (find_hid_device c.hidraws key)
            then c
            else unless_reading o r c (open_reader o (find_hid_device c.hidraws key) c))
    reading none = ground arith
    reading (some r) = ground arith

module _ (v : Variants) (model : Model) (o : Outside) where
  open v use {Variant, get_string}

  add_constructed-Within :
      (path : Text) (made : Properties × Bool) (c : Controller)
      → (has_key path c.devices ≡ false → is_at_capacity (length c.devices) max_devices ≡ false)
      → Within c
      → Within (add_constructed v model o path made c).0
  unfolding add_constructed
  add_constructed-Within path (props, false) c g h = h
  add_constructed-Within path (props, true) c g h = add_upower-Within o (power_path model props) _ (
      start_reader-Within o (hidraw_device_key model props) _
        (h.0, length-insert_guarded max_devices path props c.devices g h.1, h.2, h.3))

  add_matching-Within :
      (path : Text) (properties : List (Text × Variant)) (found : Option Text) (c : Controller)
      → Within c
      → Within (add_matching v model o path properties found c).0
  unfolding add_matching
  add_matching-Within path properties none c h = h
  add_matching-Within path properties (some mod_alias) c h =
      if_rule P (not (is_ours model (parse_modalias mod_alias))) _ _ (λ _. h)
        (λ _.
          if_rule P (has_key path c.devices) _ _ (λ _. h)
            (λ _.
              if_rule P (is_at_capacity (length c.devices) max_devices) _ _ (λ _. h)
                (λ room. add_constructed-Within path _ c (λ _. room) h)))
    where
      P : Controller × Bool → Type 0
      P r = Within r.0

  add_device-Within :
      (path : Text) (properties : List (Text × Variant)) (c : Controller)
      → Within c
      → Within (add_device v model o path properties c).0
  unfolding add_device
  add_device-Within path properties c h =
      add_matching-Within path properties (get_property get_string properties (text "Modalias")) c h

  add_interface-Within :
      (path interface : Text) (properties : List (Text × Variant)) (c : Controller)
      → Within c
      → Within (add_interface v model o path interface properties c).0
  unfolding add_interface
  add_interface-Within path interface properties c h = ground (
    arith,
    add_adapter-Within o path c,
    add_device-Within path properties c,
    add_input-Within o path c,
  )

  unless_thrown-Within :
      (r : Controller × Bool) (k : Controller → Controller × Bool)
      → Within r.0
      → ((c : Controller) → Within c → Within (k c).0)
      → Within (unless_thrown r k).0
  unless_thrown-Within (c, false) k h f = h
  unless_thrown-Within (c, true) k h f = f c h

  pub on_interfaces_added-Within :
      (path : Text) (interfaces : List (Text × List (Text × Variant))) (c : Controller)
      → Within c
      → Within (on_interfaces_added v model o path interfaces c).0
  unfolding on_interfaces_added
  on_interfaces_added-Within path [] c h = h
  on_interfaces_added-Within path ((interface, properties) ∷ interfaces) c h =
      unless_thrown-Within (add_interface v model o path interface properties c) _
        (add_interface-Within path interface properties c h)
        (λ c' h'. on_interfaces_added-Within path interfaces c' h')

  pub add_objects-Within :
      (objects : List (Text × List (Text × List (Text × Variant)))) (c : Controller)
      → Within c
      → Within (add_objects v model o objects c).0
  unfolding add_objects
  add_objects-Within [] c h = h
  add_objects-Within ((object, interfaces) ∷ objects) c h =
      unless_thrown-Within (on_interfaces_added v model o object interfaces c) _
        (on_interfaces_added-Within object interfaces c h)
        (λ c' h'. add_objects-Within objects c' h')
