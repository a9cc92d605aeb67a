-- ===== src/Udisks2/Watcher.antt =====
-- src/udisks2/udisks2_monitor_daemon.cc, class BlockDeviceWatcher: one block device, reported once
-- it holds a filesystem. What the bus answers to `GetAll` of a path and an interface, `none` for an
-- exception, is an argument, since it changes from one call to the next.
pub mod Steps
use sdbus_cpp_examples.Prelude.{
  ℕ, suc, ◌+◌, ◌≤◌, ◌≡◌, refl, sym, Bool, true, false, not, ◌&&◌, ◌||◌, Option, none, some, List,
  [], ◌∷◌, ◌++◌, if◌then◌else◌, length, arith, Option-cases, inl, inr, length-append,
}
use sdbus_cpp_examples.Prelude.Text.{Text, text, text_eq}
use sdbus_cpp_examples.Prelude.Map.{lookup, has_key, text_key}
use sdbus_cpp_examples.Dbus.{Variants}

abbrev pub block_interface : Text
block_interface = text "org.freedesktop.UDisks2.Block"

abbrev pub filesystem_interface : Text
filesystem_interface = text "org.freedesktop.UDisks2.Filesystem"

abbrev pub drive_interface : Text
drive_interface = text "org.freedesktop.UDisks2.Drive"

-- BlockDeviceWatcher, without its callback.
pub record Watcher : Type 0 where
  pub object_path : Text
  pub drive_path : Text
  pub reported : Bool

module _ (v : Variants) where
  open v use {Variant, get_string}

  abbrev pub Props : Type 0
  Props = List (Text × Variant)

  -- The answers of the bus: of a path, of an interface.
  abbrev pub Bus : Type 0
  Bus = Text → Text → Option Props

  -- One call of the DeviceReadyCallback.
  pub record Report : Type 0 where
    pub block_path : Text
    pub block_properties : Props
    pub drive_properties : Props
    pub filesystem_properties : Props

  -- `idUsage`: empty without the property, `none` where `get<std::string>()` throws.
  unfoldable pub id_usage : Props → Option Text
  id_usage block_props = elim (lookup (text "IdUsage") block_props) [
    | none ↦ some []
    | some value ↦ get_string value
  ]

  -- A map of properties that stays empty if the call that fills it throws.
  abbrev pub or_empty : Option Props → Props
  or_empty none = []
  or_empty (some props) = props

  abbrev pub is_answered : Option Props → Bool
  is_answered none = false
  is_answered (some props) = true

  -- The report, and `reported_` set before the callback is called: what the callback throws is
  -- caught and undoes neither.
  unfoldable pub report : Bus → Props → Watcher → Watcher × List Report
  report bus block_props w = (
    record w { reported = true },
    record {
      block_path = w.object_path;
      block_properties = block_props;
      drive_properties = or_empty (bus w.drive_path drive_interface);
      filesystem_properties = or_empty (bus w.object_path filesystem_interface);
    }
        ∷ [],
  )

  unfoldable pub report_if_filesystem : Bus → Props → Option Text → Watcher → Watcher × List Report
  report_if_filesystem bus block_props none w = (w, [])
  report_if_filesystem bus block_props (some usage) w =
      if text_eq usage (text "filesystem") || is_answered (bus w.object_path filesystem_interface)
      then report bus block_props w
      else (w, [])

  unfoldable pub check_block : Bus → Option Props → Watcher → Watcher × List Report
  check_block bus none w = (w, [])
  check_block bus (some block_props) w =
      report_if_filesystem bus block_props (id_usage block_props) w

  -- BlockDeviceWatcher::checkAndReportIfReady, with a callback that is set.
  unfoldable pub check_and_report_if_ready : Bus → Watcher → Watcher × List Report
  check_and_report_if_ready bus w =
      if w.reported then (w, []) else check_block bus (bus w.object_path block_interface) w

  -- BlockDeviceWatcher::BlockDeviceWatcher.
  unfoldable pub new_watcher : Bus → Text → Text → Watcher × List Report
  new_watcher bus object_path drive_path =
      check_and_report_if_ready bus
        (record { object_path = object_path; drive_path = drive_path; reported = false })

  -- BlockDeviceWatcher::onPropertiesChanged.
  unfoldable pub on_properties_changed : Bus → Text → Props → Watcher → Watcher × List Report
  on_properties_changed bus interface_name changed w =
      if text_eq interface_name block_interface && not w.reported
      then (if has_key (text "IdUsage") changed || has_key (text "IdType") changed
          then check_and_report_if_ready bus w
          else (w, []))
      else (w, [])
