-- ===== src/Examples/Gamepads.antt =====
-- A DualSense controller that is announced, goes, and comes back; and the client of BlueZ.
use sdbus_cpp_examples.Prelude.{
  ◌≡◌, Bool, true, false, Option, none, some, List, [], ◌∷◌, if◌then◌else◌, contains-nil,
}
use sdbus_cpp_examples.Prelude.Text.{Text, text, text_eq}
use sdbus_cpp_examples.Prelude.Map.{lookup, text_key}
use sdbus_cpp_examples.Dbus.{Variants}
use sdbus_cpp_examples.EventLoop.{new_loop}
use sdbus_cpp_examples.EventLoop.Safety.{new_loop-Inv}
use sdbus_cpp_examples.Bluez.Hidraw.Devices.{Udev}
use sdbus_cpp_examples.Bluez.Controllers.{Controller, dual_sense, Outside}
use sdbus_cpp_examples.Bluez.Controllers.Adding.{construct}
use sdbus_cpp_examples.Bluez.Controllers.Removing.{on_interfaces_removed}
use sdbus_cpp_examples.Bluez.Controllers.Events.{
  Event, added, removed, changed, udev_event, passes, steps,
}
use sdbus_cpp_examples.Bluez.Controllers.Limits.{controller-Within}
use sdbus_cpp_examples.Bluez.Controllers.Limits.Growing.{Within}
use sdbus_cpp_examples.Bluez.Controllers.Keeping.{KeptAt, Kept}
use sdbus_cpp_examples.Bluez.Controllers.Readers.{controller-Kept}
use sdbus_cpp_examples.Bluez.Controllers.Gone.{left_over, on_interfaces_removed-lookup}
use sdbus_cpp_examples.Bluez.Client
use sdbus_cpp_examples.Bluez.Client.{Client, new_client}
use sdbus_cpp_examples.Bluez.Client.Limits.{AllWithin, starts, adds, Reaches-AllWithin}

data Value : Type 0 where
  words : Text → Value
  flag : Bool → Value

abbrev a_text : Value → Option Text
a_text (words s) = some s
a_text (flag b) = none

abbrev a_flag : Value → Option Bool
a_flag (words s) = none
a_flag (flag b) = some b

abbrev values : Variants
values = record {
  Variant = Value;
  get_string = a_text;
  get_object_path = a_text;
  get_bool = a_flag;
  get_int16 = λ x. none;
  get_strings = λ x. none;
  get_int32 = λ x. none;
  get_uint64 = λ x. none;
  get_bytes = λ x. none;
  get_uint32 = λ x. none;
  get_int64 = λ x. none;
  get_byte = λ x. none;
  get_double = λ x. none;
  get_timestamp = λ x. none;
  get_object_paths = λ x. none;
  get_byte_lists = λ x. none;
  get_variant_map = λ x. none;
}

abbrev properties : List (Text × Value)
properties =
    (text "Address", words (text "A0:AB:5F"))
    ∷ (text "Connected", flag true)
    ∷ (text "Modalias", words (text "usb:v054Cp0CE6d0100"))
    ∷ (text "Paired", flag true)
    ∷ (text "Trusted", flag true)
    ∷ []

abbrev path : Text
path = text "/org/bluez/hci0/dev_A0_AB_5F"

abbrev outside : Outside
outside = record {
  makes_adapter = λ p. true;
  makes_input = λ p. true;
  makes_upower = λ p. true;
  opens_reader = λ p. true;
}

abbrev device_of : Text → Option (List (Option Text × Option Text))
device_of p =
    if text_eq p (text "/sys/devices/a/input")
    then some (
        (some (text "UNIQ"), some (text "a0:ab:5f"))
        ∷ (some (text "ID_BUS"), some (text "bluetooth"))
        ∷ (some (text "NAME"), some (text "\"DualSense Wireless Controller\""))
        ∷ (some (text "PRODUCT"), some (text "5/54c/ce6/8100"))
        ∷ [])
    else some ((some (text "DEVNAME"), some (text "/dev/hidraw0")) ∷ [])

abbrev udev : Udev
udev = record {
  context = true;
  enumerate = true;
  add_match = λ s. true;
  scan = λ s. true;
  entries = λ s.
      some (
        if text_eq s (text "input")
        then text "/sys/devices/a/input"
        else text "/sys/devices/a/hidraw")
      ∷ [];
  device = device_of;
}

abbrev objects : List (Text × List (Text × List (Text × Value)))
objects = (path, (text "org.bluez.Device1", properties) ∷ (text "org.bluez.Input1", []) ∷ []) ∷ []

abbrev visit : List (Event values)
visit =
    passes
    ∷ udev_event udev (text "remove") (text "hidraw")
    ∷ removed path (text "org.bluez.Device1" ∷ [])
    ∷ passes
    ∷ added outside path ((text "org.bluez.Device1", properties) ∷ [])
    ∷ changed path ((text "Connected", flag false) ∷ [])
    ∷ []

abbrev at_start : Controller × Bool
at_start = construct values dual_sense outside udev objects (new_loop true) 1

controller-Within_example : Within (steps values dual_sense visit at_start.0)
controller-Within_example =
    controller-Within values dual_sense outside udev objects (new_loop true) 1 visit

new_loop-KeptAt : KeptAt none (new_loop true) 1
new_loop-KeptAt = record {
  inv = new_loop-Inv true;
  reader_lives = λ r e. cc;
  fresh = λ a le. (contains-nil a, contains-nil a);
}

controller-Kept_example : Kept (steps values dual_sense visit at_start.0)
controller-Kept_example =
    controller-Kept values dual_sense outside udev objects (new_loop true) 1 visit new_loop-KeptAt

on_interfaces_removed-lookup_example :
    let gone = text "org.bluez.Input1" ∷ text "org.bluez.Device1" ∷ [] in
    let c' = on_interfaces_removed dual_sense path gone at_start.0 in
    (lookup path c'.adapters
      ≡ left_over (text "org.bluez.Adapter1") path path gone at_start.0.adapters)
    × (lookup path c'.devices
        ≡ left_over (text "org.bluez.Device1") path path gone at_start.0.devices)
    × (lookup path c'.inputs ≡ left_over (text "org.bluez.Input1") path path gone at_start.0.inputs)
on_interfaces_removed-lookup_example =
    on_interfaces_removed-lookup dual_sense path path
      (text "org.bluez.Input1" ∷ text "org.bluez.Device1" ∷ []) at_start.0

abbrev announced : Client × Bool
announced =
    Client.on_interfaces_added values (λ i p. true) path
      ((text "org.bluez.Device1", properties) ∷ (text "org.bluez.Battery1", []) ∷ []) new_client

Reaches-AllWithin_example : AllWithin announced.0
Reaches-AllWithin_example = Reaches-AllWithin values announced.0 (
    adds {c = new_client} (λ i p. true) path
      ((text "org.bluez.Device1", properties) ∷ (text "org.bluez.Battery1", []) ∷ []) starts)
