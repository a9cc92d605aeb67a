-- ===== src/Bluez/Hidraw/Devices.antt =====
-- The enumeration of udev devices and the association of hidraw devices with input devices. The
-- answers of libudev, which is not part of the repository, are a parameter, a `Udev`.
use sdbus_cpp_examples.Prelude.{
  ℕ, Bool, true, false, not, ◌&&◌, Option, none, some, List, [], ◌∷◌, if◌then◌else◌, is_empty, ◌==◌,
  ◌++◌,
}
use sdbus_cpp_examples.Prelude.Text.{Text, text, text_eq}
use sdbus_cpp_examples.Prelude.Map.{lookup, insert, text_key}
use sdbus_cpp_examples.Bluez.Hidraw.{
  compare_subsystem_device_paths, compare_uhid_vid_pid, create_device_key_from_serial_number,
}

-- Whether udev_new, udev_enumerate_new, the subsystem match and the scan succeed; the names of the
-- entries; the properties of the device at a path, if there is one. A name or a value may be null.
pub record Udev : Type 0 where
  pub context : Bool
  pub enumerate : Bool
  pub add_match : Text → Bool
  pub scan : Text → Bool
  pub entries : Text → List (Option Text)
  pub device : Text → Option (List (Option Text × Option Text))

abbrev pub Properties : Type 0
Properties = List (Text × Text)

abbrev pub value_or_empty : Option Text → Text
value_or_empty none = []
value_or_empty (some value) = value

-- The loop over the properties of a device.
unfoldable pub read_properties : List (Option Text × Option Text) → Properties → Properties
read_properties [] properties = properties
read_properties ((none, value) ∷ list) properties = read_properties list properties
read_properties ((some name, value) ∷ list) properties =
    read_properties list (insert name (value_or_empty value) properties)

-- The loop over `match_params`, and one round of it.
abbrev pub has_value : Option Text → Text → Bool
has_value none value = false
has_value (some v) value = text_eq v value

unfoldable pub matches : List (Text × Text) → Properties → Bool
matches [] properties = true
matches ((key, value) ∷ match_params) properties =
    has_value (lookup key properties) value && matches match_params properties

-- One round of the loop over the entries, with the device found or not.
unfoldable pub add_device :
    List (Text × Text)
    → Text
    → Option (List (Option Text × Option Text))
    → List (Text × Properties)
    → List (Text × Properties)
add_device match_params path none results = results
add_device match_params path (some list) results =
    let properties = read_properties list [] in
    if matches match_params properties then insert path properties results else results

unfoldable pub add_devices :
    Udev
    → List (Text × Text)
    → List (Option Text)
    → List (Text × Properties)
    → List (Text × Properties)
add_devices udev match_params [] results = results
add_devices udev match_params (none ∷ entries) results =
    add_devices udev match_params entries results
add_devices udev match_params (some path ∷ entries) results =
    add_devices udev match_params entries (add_device match_params path (udev.device path) results)

-- Hidraw::get_udev_properties.
unfoldable pub get_udev_properties : Udev → Text → List (Text × Text) → List (Text × Properties)
get_udev_properties udev sub_system match_params =
    if not udev.context
    then []
    else if not udev.enumerate
    then []
    else if not (udev.add_match sub_system)
    then []
    else if not (udev.scan sub_system)
    then []
    else add_devices udev match_params (udev.entries sub_system) []

-- The body of the inner loop, its properties looked up.
unfoldable pub associate_found :
    Text → Option Text → Option Text → List (Text × Text) → List (Text × Text)
associate_found input_path none uniq devices = devices
associate_found input_path (some dev_name) none devices = devices
associate_found input_path (some dev_name) (some serial_number) devices =
    insert (create_device_key_from_serial_number serial_number) dev_name devices

unfoldable pub associate :
    Text × Properties → Text × Properties → List (Text × Text) → List (Text × Text)
associate (input_path, input_properties) (hidraw_path, hidraw_properties) devices =
    if compare_subsystem_device_paths input_path hidraw_path
    then associate_found input_path (lookup (text "DEVNAME") hidraw_properties)
        (lookup (text "UNIQ") input_properties) devices
    else devices

unfoldable pub associate_each :
    Text × Properties → List (Text × Properties) → List (Text × Text) → List (Text × Text)
associate_each input [] devices = devices
associate_each input (hidraw ∷ hidraws) devices =
    associate_each input hidraws (associate input hidraw devices)

unfoldable pub associate_all :
    List (Text × Properties) → List (Text × Properties) → List (Text × Text) → List (Text × Text)
associate_all [] hidraws devices = devices
associate_all (input ∷ inputs) hidraws devices =
    associate_all inputs hidraws (associate_each input hidraws devices)

-- The member function get_hidraw_devices: `devices_` after it, and what it returns.
unfoldable pub get_hidraw_devices : Udev → List (Text × Text) → List (Text × Text) × Bool
get_hidraw_devices udev match_params =
    let input_devices = get_udev_properties udev (text "input") match_params in
    let hidraw_devices = get_udev_properties udev (text "hidraw") [] in
    if is_empty input_devices
    then ([], false)
    else (associate_all input_devices hidraw_devices [], true)

-- The static function of the same name.
abbrev pub push_device : ℕ → Text → Text → Option Text → Option Text → List Text → List Text
push_device bus vid pid none dev_path devices = devices
push_device bus vid pid (some dev_name) none devices = devices
push_device bus vid pid (some dev_name) (some dev_path) devices =
    if compare_uhid_vid_pid dev_path bus vid pid == 0 then devices ++ dev_name ∷ [] else devices

unfoldable pub push_devices : ℕ → Text → Text → List (Text × Properties) → List Text → List Text
push_devices bus vid pid [] devices = devices
push_devices bus vid pid ((path, properties) ∷ found) devices = push_devices bus vid pid found (
    push_device bus vid pid (lookup (text "DEVNAME") properties)
      (lookup (text "DEVPATH") properties) devices)

unfoldable pub get_hidraw_devices_of : Udev → ℕ → Text → Text → List Text
get_hidraw_devices_of udev bus vid pid =
    push_devices bus vid pid (get_udev_properties udev (text "hidraw") []) []

-- Hidraw::FindHidDevice on `devices_`: the empty path if there is none.
unfoldable pub find_hid_device : List (Text × Text) → Text → Text
find_hid_device devices key = elim (lookup key devices) [ none ↦ [] | some path ↦ path ]
