-- ===== src/Udisks2/Monitor.antt =====
-- src/udisks2/udisks2_monitor_daemon.cc, class RemovableDeviceMonitor: a watcher for each block
-- device of a removable drive. `none` is a handler that ends in an exception.
pub mod Once
use sdbus_cpp_examples.Prelude.{
  Bool, true, false, Option, none, some, List, [], ◌∷◌, ◌++◌, if◌then◌else◌, bind,
}
use sdbus_cpp_examples.Prelude.Text.{Text, text, text_eq}
use sdbus_cpp_examples.Prelude.Map.{lookup, has_key, insert, remove, text_key}
use sdbus_cpp_examples.Dbus.{Variants}
use sdbus_cpp_examples.Udisks2.Watcher.{
  Watcher, Props, Bus, Report, new_watcher, on_properties_changed, block_interface,
}

abbrev pub Watchers : Type 0
Watchers = List (Text × Watcher)

-- onInterfacesRemoved, over the interfaces.
unfoldable pub on_interfaces_removed : Text → List Text → Watchers → Watchers
on_interfaces_removed path [] watchers = watchers
on_interfaces_removed path (interface ∷ interfaces) watchers =
    on_interfaces_removed path interfaces
      (if text_eq interface block_interface then remove path watchers else watchers)

module _ (v : Variants) where
  open v use {Variant, get_object_path, get_bool}

  abbrev pub Outcome : Type 0
  Outcome = Watchers × List (Report v)

  -- `drivePath`: "/" without the property, `none` where `get<sdbus::ObjectPath>()` throws.
  unfoldable pub drive_of : Props v → Option Text
  drive_of block_props = elim (lookup (text "Drive") block_props) [
    | none ↦ some (text "/")
    | some value ↦ get_object_path value
  ]

  -- `isRemovable`, `none` where `get<bool>()` throws.
  unfoldable pub removable_of : Props v → Option Bool
  removable_of drive_props = elim (lookup (text "Removable") drive_props) [
    | none ↦ some false
    | some value ↦ get_bool value
  ]

  -- The new watcher in the map, and what its constructor reported.
  unfoldable pub watch : Text → Watcher × List (Report v) → Watchers → Outcome
  watch path (w, reports) watchers = (insert path w watchers, reports)

  -- The body of the try block, from `isRemovable` on. An exception in it is caught.
  unfoldable pub add_removable : Bus v → Text → Text → Option Bool → Watchers → Outcome
  add_removable bus path drive none watchers = (watchers, [])
  add_removable bus path drive (some false) watchers = (watchers, [])
  add_removable bus path drive (some true) watchers =
      if has_key path watchers
      then (watchers, [])
      else watch path (new_watcher v bus path drive) watchers

  -- From the test of `drivePath` on. The first answers are those of the handler's own call, the bus
  -- is what the constructor of the watcher is answered.
  unfoldable pub add_on_drive : (Text → Option (Props v)) → Bus v → Text → Text → Watchers → Outcome
  add_on_drive drive_props bus path drive watchers =
      if text_eq drive (text "/")
      then (watchers, [])
      else add_removable bus path drive (bind (drive_props drive) removable_of) watchers

  unfoldable pub add_block :
      (Text → Option (Props v)) → Bus v → Text → Option (Props v) → Watchers → Option Outcome
  add_block drive_props bus path none watchers = some (watchers, [])
  add_block drive_props bus path (some block_props) watchers =
      bind (drive_of block_props) λ drive. some (add_on_drive drive_props bus path drive watchers)

  -- onInterfacesAdded.
  unfoldable pub on_interfaces_added :
      (Text → Option (Props v)) → Bus v → Text → List (Text × Props v) → Watchers → Option Outcome
  on_interfaces_added drive_props bus path interfaces watchers =
      add_block drive_props bus path (lookup block_interface interfaces) watchers

  -- onPropertiesChanged of the watcher at the path, if there is one.
  unfoldable pub change_watcher :
      Bus v → Text → Text → Props v → Option Watcher → Watchers → Outcome
  change_watcher bus path interface_name changed none watchers = (watchers, [])
  change_watcher bus path interface_name changed (some w) watchers =
      watch path (on_properties_changed v bus interface_name changed w) watchers

  -- What the bus delivers, with what it answers to the calls that the handlers make.
  pub data Event : Type 0 where
    added : (Text → Option (Props v)) → Bus v → Text → List (Text × Props v) → Event
    removed : Text → List Text → Event
    changed : Bus v → Text → Text → Props v → Event

  -- A handler that throws has changed nothing: the exception leaves it before the first write.
  abbrev pub or_unchanged : Watchers → Option Outcome → Outcome
  or_unchanged watchers none = (watchers, [])
  or_unchanged watchers (some outcome) = outcome

  unfoldable pub handle : Event → Watchers → Outcome
  handle (added drive_props bus path interfaces) watchers =
      or_unchanged watchers (on_interfaces_added drive_props bus path interfaces watchers)
  handle (removed path interfaces) watchers = (on_interfaces_removed path interfaces watchers, [])
  handle (changed bus path interface_name props) watchers =
      change_watcher bus path interface_name props (lookup path watchers) watchers

  unfoldable pub run : List Event → Watchers → Outcome
  run [] watchers = (watchers, [])
  run (event ∷ events) watchers =
      let here = handle event watchers in let rest = run events here.0 in (rest.0, here.1 ++ rest.1)

  -- RemovableDeviceMonitor::RemovableDeviceMonitor: the objects that exist already, in turn. An
  -- exception of the handler ends the constructor.
  unfoldable pub scan :
      (Text → Option (Props v))
      → Bus v
      → List (Text × List (Text × Props v))
      → Outcome
      → Option Outcome
  scan drive_props bus [] outcome = some outcome
  scan drive_props bus ((path, interfaces) ∷ objects) (watchers, reports) =
      bind (on_interfaces_added drive_props bus path interfaces watchers)
        λ here. scan drive_props bus objects (here.0, reports ++ here.1)
