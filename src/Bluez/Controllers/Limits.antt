-- ===== src/Bluez/Controllers/Limits.antt =====
-- The maps of a controller stay within src/utils/resource_limits.h.
pub mod Growing
use sdbus_cpp_examples.Prelude.{
  ℕ, ◌≤◌, ◌≡◌, refl, Bool, true, false, not, Option, none, some, List, [], ◌∷◌, if◌then◌else◌,
  if_rule, length, is_empty, arith,
}
use sdbus_cpp_examples.Prelude.Text.{Text, text, text_eq}
use sdbus_cpp_examples.Prelude.Map.{
  lookup, has_key, text_key, length-insert, length-remove-le, lookup-has_key,
}
use sdbus_cpp_examples.Dbus.{Variants, get_property}
use sdbus_cpp_examples.ResourceLimits.{
  is_at_capacity, max_adapters, max_devices, max_input_entries, max_upower_clients,
  length-insert_guarded,
}
use sdbus_cpp_examples.EventLoop.{Loop}
use sdbus_cpp_examples.Bluez.Device1.{parse_modalias, Properties, on_properties_changed}
use sdbus_cpp_examples.Bluez.Hidraw.Devices.{Udev, find_hid_device}
use sdbus_cpp_examples.Bluez.Controllers.{
  Model, Controller, new_controller, is_ours, Outside, hidraw_device_key, power_path, unless_thrown,
}
use sdbus_cpp_examples.Bluez.Controllers.Adding.{
  add_adapter, add_input, add_upower, open_reader, unless_reading, start_reader, add_constructed,
  add_matching, add_device, add_interface, on_interfaces_added, add_objects, construct,
}
use sdbus_cpp_examples.Bluez.Controllers.Removing.{
  remove_device, remove_interface, on_interfaces_removed, find_hidraws, retire_reader,
  on_udev_event, change_device, device_changed,
}
use sdbus_cpp_examples.Bluez.Controllers.Events.{
  Event, added, removed, changed, udev_event, passes, step, steps,
}
use sdbus_cpp_examples.Bluez.Controllers.Limits.Growing.{
  Within, on_interfaces_added-Within, add_objects-Within,
}

remove_device-Within :
    (model : Model) (path : Text) (o : Option Properties) (c : Controller)
    → Within c
    → Within (remove_device model path o c)
unfolding remove_device
remove_device-Within model path none c h = h
remove_device-Within model path (some props) c h = ground (
  arith,
  length-remove-le path c.devices,
  length-remove-le (power_path model props) c.upower_clients,
)

remove_interface-Within :
    (model : Model) (path interface : Text) (c : Controller)
    → Within c
    → Within (remove_interface model path interface c)
unfolding remove_interface
remove_interface-Within model path interface c h = ground (
  arith,
  length-remove-le path c.adapters,
  length-remove-le path c.inputs,
  remove_device-Within model path (lookup path c.devices) c,
)

on_interfaces_removed-Within :
    (model : Model) (path : Text) (interfaces : List Text) (c : Controller)
    → Within c
    → Within (on_interfaces_removed model path interfaces c)
unfolding on_interfaces_removed
on_interfaces_removed-Within model path [] c h = h
on_interfaces_removed-Within model path (interface ∷ interfaces) c h =
    on_interfaces_removed-Within model path interfaces (remove_interface model path interface c)
      (remove_interface-Within model path interface c h)

find_hidraws-Within :
    (model : Model) (udev : Udev) (c : Controller) → Within c → Within (find_hidraws model udev c)
unfolding find_hidraws
find_hidraws-Within model udev c h = h

retire_reader-Within : (o : Option ℕ) (c : Controller) → Within c → Within (retire_reader o c)
unfolding retire_reader
retire_reader-Within none c h = h
retire_reader-Within (some r) c h = h

on_udev_event-Within :
    (model : Model) (udev : Udev) (action sub_system : Text) (c : Controller)
    → Within c
    → Within (on_udev_event model udev action sub_system c)
unfolding on_udev_event
on_udev_event-Within model udev action sub_system c h =
    if_rule Within (text_eq sub_system (text "hidraw")) _ _
      (λ _. find_hidraws-Within model udev _ (
        if_rule Within (text_eq action (text "remove")) _ _
          (λ _. retire_reader-Within c.input_reader c h) (λ _. h)))
      (λ _. h)

module _ (v : Variants) where
  open v use {Variant}

  change_device-Within :
      (path : Text) (properties : List (Text × Variant)) (found : Option Properties)
      (c : Controller)
      → lookup path c.devices ≡ found
      → Within c
      → Within (change_device v path properties found c).0
  unfolding change_device
  change_device-Within path properties none c e h = h
  change_device-Within path properties (some props) c e h = ground (
    arith,
    length-insert path (on_properties_changed v properties props).0 c.devices,
    lookup-has_key path props c.devices e,
  )

  device_changed-Within :
      (path : Text) (properties : List (Text × Variant)) (c : Controller)
      → Within c
      → Within (device_changed v path properties c).0
  unfolding device_changed
  device_changed-Within path properties c h =
      change_device-Within path properties (lookup path c.devices) c refl h

  step-Within :
      (model : Model) (e : Event v) (c : Controller) → Within c → Within (step v model e c)
  unfolding step
  step-Within model (added o path interfaces) c h =
      on_interfaces_added-Within v model o path interfaces c h
  step-Within model (removed path interfaces) c h =
      on_interfaces_removed-Within model path interfaces c h
  step-Within model (changed path properties) c h = device_changed-Within path properties c h
  step-Within model (udev_event udev action sub_system) c h =
      on_udev_event-Within model udev action sub_system c h
  step-Within model passes c h = h

  steps-Within :
      (model : Model) (es : List (Event v)) (c : Controller)
      → Within c
      → Within (steps v model es c)
  unfolding steps
  steps-Within model [] c h = h
  steps-Within model (e ∷ es) c h =
      steps-Within model es (step v model e c) (step-Within model e c h)

  -- From the construction on, whatever the bus announces, removes or changes and in whatever order,
  -- each map of a controller has at most as many entries as its limit allows.
  pub controller-Within :
      (model : Model) (o : Outside) (udev : Udev)
      (objects : List (Text × List (Text × List (Text × Variant)))) (l : Loop) (next : ℕ)
      (es : List (Event v))
      → Within (steps v model es (construct v model o udev objects l next).0)
  unfolding construct
  controller-Within model o udev objects l next es =
      steps-Within model es (construct v model o udev objects l next).0 (
        add_objects-Within v model o objects _ (
          find_hidraws-Within model udev (new_controller l next)
            (omega arith, omega arith, omega arith, omega arith)))
