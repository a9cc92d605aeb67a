-- ===== src/Bluez/Controllers/Programs.antt =====
-- The handlers of the three programs: the shared code at their identifiers.
use sdbus_cpp_examples.Prelude.{Bool, List}
use sdbus_cpp_examples.Prelude.Text.{Text}
use sdbus_cpp_examples.Dbus.{Variants}
use sdbus_cpp_examples.Bluez.Hidraw.Devices.{Udev}
use sdbus_cpp_examples.Bluez.Controllers.{
  Controller, Outside, dual_sense, xbox_controller, horipad_steam,
}
use sdbus_cpp_examples.Bluez.Controllers.Adding.{on_interfaces_added}
use sdbus_cpp_examples.Bluez.Controllers.Removing.{on_interfaces_removed, on_udev_event}

module _ (v : Variants) where
  open v use {Variant}

  unfoldable pub dual_sense_added :
      Outside → Text → List (Text × List (Text × Variant)) → Controller → Controller × Bool
  dual_sense_added = on_interfaces_added v dual_sense

  unfoldable pub xbox_added :
      Outside → Text → List (Text × List (Text × Variant)) → Controller → Controller × Bool
  xbox_added = on_interfaces_added v xbox_controller

  unfoldable pub horipad_added :
      Outside → Text → List (Text × List (Text × Variant)) → Controller → Controller × Bool
  horipad_added = on_interfaces_added v horipad_steam

unfoldable pub dual_sense_removed : Text → List Text → Controller → Controller
dual_sense_removed = on_interfaces_removed dual_sense

unfoldable pub xbox_removed : Text → List Text → Controller → Controller
xbox_removed = on_interfaces_removed xbox_controller

unfoldable pub horipad_removed : Text → List Text → Controller → Controller
horipad_removed = on_interfaces_removed horipad_steam

unfoldable pub dual_sense_udev : Udev → Text → Text → Controller → Controller
dual_sense_udev = on_udev_event dual_sense

unfoldable pub xbox_udev : Udev → Text → Text → Controller → Controller
xbox_udev = on_udev_event xbox_controller

unfoldable pub horipad_udev : Udev → Text → Text → Controller → Controller
horipad_udev = on_udev_event horipad_steam
