-- ===== src/Examples/Devices.antt =====
-- The properties, the modalias and the hidraw devices of one controller.
use sdbus_cpp_examples.Prelude.{
  ℕ, ◌≡◌, ◌⊎◌, refl, true, if◌then◌else◌, Option, none, some, List, [], ◌∷◌, ◌++◌, map,
}
use sdbus_cpp_examples.Prelude.Text.{Text, text, text_eq, to_upper, to_lower}
use sdbus_cpp_examples.Prelude.Map.{lookup, insert, text_key}
use sdbus_cpp_examples.Bluez.Patterns.{literal, hex_digits, search_from}
use sdbus_cpp_examples.Bluez.Device1.{Modalias, field, three_fields, modalias_here, parse_modalias}
use sdbus_cpp_examples.Bluez.Device1.Parsing.{print_modalias, IsWellFormed, parse-print_modalias}
use sdbus_cpp_examples.Bluez.Hidraw.{
  replace_byte, create_device_key_from_serial_number, compare_subsystem_device_paths,
  compare_common, unquote_front, unquote_back,
}
use sdbus_cpp_examples.Bluez.Hidraw.Keys.{device_key_agrees}
use sdbus_cpp_examples.Bluez.Hidraw.Devices.{
  Udev, Properties, read_properties, matches, add_device, add_devices, get_udev_properties,
  associate, associate_found, associate_each, associate_all, get_hidraw_devices,
}
use sdbus_cpp_examples.Bluez.Hidraw.Association.{Belongs, get_hidraw_devices-Belongs}

-- Variants that hold a number or something else.
abbrev a_map : List (Text × Option ℕ)
a_map = (text "RSSI", some 7) ∷ (text "Name", none) ∷ []

abbrev get_number : Option ℕ → Option ℕ
get_number v = v

abbrev dual_sense : Modalias
dual_sense = record { vid = text "054C"; pid = text "0CE6"; did = text "0100" }

dual_sense-IsWellFormed : IsWellFormed dual_sense
dual_sense-IsWellFormed = record {
  vid_hex = (refl, (refl, (refl, (refl, tt))));
  pid_hex = (refl, (refl, (refl, (refl, tt))));
  did_hex = (refl, (refl, (refl, (refl, tt))));
  vid_four = refl;
  pid_four = refl;
  did_four = refl;
}

parsed : parse_modalias (text "x usb:v054Cp0CE6d0100") ≡ some dual_sense
unfolding parse_modalias search_from modalias_here three_fields field literal hex_digits
parsed = refl

parse-print_modalias_example :
    parse_modalias (print_modalias dual_sense ++ text "x") ≡ some dual_sense
parse-print_modalias_example = parse-print_modalias dual_sense (text "x") dual_sense-IsWellFormed

abbrev address : Text
address = text "A0:AB:5F"

device_key_agrees_example :
    (create_device_key_from_serial_number (b'"' ∷ (map to_lower address ++ b'"' ∷ []))
      ≡ create_device_key_from_serial_number address)
    × (create_device_key_from_serial_number address
        ≡ text "dev_" ++ replace_byte b':' b'_' (map to_upper address))
device_key_agrees_example = device_key_agrees address refl

device_key_test : create_device_key_from_serial_number (text "\"a0:ab:5f\"") ≡ text "dev_A0_AB_5F"
unfolding create_device_key_from_serial_number unquote_front unquote_back
device_key_test = refl

abbrev input_path : Text
input_path = text "/sys/devices/usb1/1-2/input/input5"

abbrev hidraw_path : Text
hidraw_path = text "/sys/devices/usb1/1-2/hidraw/hidraw0"

one_parent : compare_subsystem_device_paths input_path hidraw_path ≡ true
unfolding compare_subsystem_device_paths compare_common
one_parent = refl

-- One controller, and a device without a name.
abbrev device_of : Text → Option (List (Option Text × Option Text))
device_of path =
    if text_eq path input_path
    then some (
        (some (text "UNIQ"), some (text "\"a0:ab:5f\""))
        ∷ (some (text "ID_BUS"), some (text "usb"))
        ∷ [])
    else some ((some (text "DEVNAME"), some (text "/dev/hidraw0")) ∷ (none, none) ∷ [])

abbrev udev : Udev
udev = record {
  context = true;
  enumerate = true;
  add_match = λ s. true;
  scan = λ s. true;
  entries = λ s. none ∷ some (if text_eq s (text "input") then input_path else hidraw_path) ∷ [];
  device = device_of;
}

abbrev wanted : List (Text × Text)
wanted = (text "ID_BUS", text "usb") ∷ []

abbrev controller : Properties
controller = (text "UNIQ", text "\"a0:ab:5f\"") ∷ (text "ID_BUS", text "usb") ∷ []

enumerated : lookup input_path (get_udev_properties udev (text "input") wanted) ≡ some controller
unfolding lookup insert get_udev_properties add_devices add_device matches read_properties
enumerated = refl

associated :
    lookup (text "dev_A0_AB_5F") (get_hidraw_devices udev wanted).0 ≡ some (text "/dev/hidraw0")
unfolding lookup insert get_udev_properties add_devices add_device matches read_properties
    get_hidraw_devices associate_all associate_each associate associate_found
    compare_subsystem_device_paths compare_common create_device_key_from_serial_number unquote_front
    unquote_back
associated = refl

get_hidraw_devices-Belongs_example :
    ((dev_name : Text) × (lookup (text "dev_A0_AB_5F") (get_hidraw_devices udev wanted).0
        ≡ some dev_name)
      × Belongs udev wanted (text "dev_A0_AB_5F") dev_name)
    ⊎ ((lookup (text "dev_A0_AB_5F") (get_hidraw_devices udev wanted).0 ≡ none)
        × ((dev_name : Text) → ¬ (Belongs udev wanted (text "dev_A0_AB_5F") dev_name)))
get_hidraw_devices-Belongs_example =
    get_hidraw_devices-Belongs udev wanted (text "dev_A0_AB_5F") (refl, refl, refl, refl)
      (refl, refl, refl, refl)
