-- ===== src/Bluez/Controllers/Events.antt =====
-- What can happen to a controller, in any order.
use sdbus_cpp_examples.Prelude.{List, [], ◌∷◌}
use sdbus_cpp_examples.Prelude.Text.{Text}
use sdbus_cpp_examples.Prelude.Map.{text_key}
use sdbus_cpp_examples.Dbus.{Variants}
use sdbus_cpp_examples.EventLoop.{apply_pending}
use sdbus_cpp_examples.Bluez.Hidraw.Devices.{Udev}
use sdbus_cpp_examples.Bluez.Controllers.{Model, Controller, Outside}
use sdbus_cpp_examples.Bluez.Controllers.Adding.{on_interfaces_added}
use sdbus_cpp_examples.Bluez.Controllers.Removing.{
  on_interfaces_removed, device_changed, on_udev_event,
}

module _ (v : Variants) where
  open v use {Variant}

  -- What can happen to a controller. `passes` is the start of a pass of the loop, apply_pending();
  -- an exception leaves the state as it is then.
  pub data Event : Type 0 where
    added : Outside → Text → List (Text × List (Text × Variant)) → Event
    removed : Text → List Text → Event
    changed : Text → List (Text × Variant) → Event
    udev_event : Udev → Text → Text → Event
    passes : Event

  unfoldable pub step : Model → Event → Controller → Controller
  step model (added o path interfaces) c = (on_interfaces_added v model o path interfaces c).0
  step model (removed path interfaces) c = on_interfaces_removed model path interfaces c
  step model (changed path properties) c = (device_changed v path properties c).0
  step model (udev_event udev action sub_system) c = on_udev_event model udev action sub_system c
  step model passes c = record c { loop = apply_pending c.loop }

  unfoldable pub steps : Model → List Event → Controller → Controller
  steps model [] c = c
  steps model (e ∷ es) c = steps model es (step model e c)
