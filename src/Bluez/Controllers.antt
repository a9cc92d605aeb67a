-- ===== src/Bluez/Controllers.antt =====
-- The three programs for game controllers: src/bluez/ps5_dual_sense/dual_sense.cc,
-- xbox_controller/xbox_controller.cc and horipad_steam/horipad_steam.cc. Their classes differ in
-- the identifiers, in what is matched at udev and in the UPower client, which are a `Model`; the
-- handlers are the same code. The adapters, inputs and UPower clients are objects without a state
-- of interest; a device keeps its properties. An InputReader is a number, given out in the order of
-- construction (`next`). Whether a constructor throws, and whether a reader is valid, is an
-- argument, `Outside`.
pub mod Texts
pub mod Adding
pub mod Removing
pub mod Events
pub mod Programs
pub mod Limits
pub mod Keeping
pub mod Readers
pub mod Gone
use sdbus_cpp_examples.Prelude.{
  ℕ, suc, Bool, true, false, not, ◌&&◌, ◌||◌, Option, none, some, List, [], ◌∷◌, ◌++◌, map,
  if◌then◌else◌, length, is_empty,
}
use sdbus_cpp_examples.Prelude.Text.{Text, text, text_eq, to_lower}
use sdbus_cpp_examples.Prelude.Map.{lookup, has_key, insert, remove, text_key}
use sdbus_cpp_examples.Dbus.{Variants, get_property}
use sdbus_cpp_examples.ResourceLimits.{
  is_at_capacity, max_adapters, max_devices, max_input_entries, max_upower_clients,
}
use sdbus_cpp_examples.EventLoop.{Loop, perform, adds, retires, apply_pending}
use sdbus_cpp_examples.Bluez.Device1.{
  Modalias, parse_modalias, Properties, no_properties, on_properties_changed,
}
use sdbus_cpp_examples.Bluez.Hidraw.{create_device_key_from_serial_number, replace_byte}
use sdbus_cpp_examples.Bluez.Hidraw.Devices.{Udev, get_hidraw_devices, find_hid_device}

pub record Model : Type 0 where
  pub vendor_id : Text
  pub product_ids : List Text
  pub input_match_bt : List (Text × Text)
  pub input_match_usb : List (Text × Text)
  pub has_upower : Bool

abbrev pub dual_sense : Model
dual_sense = record {
  vendor_id = text "054C";
  product_ids = text "0CE6" ∷ [];
  input_match_bt =
      (text "ID_BUS", text "bluetooth")
      ∷ (text "NAME", text "\"DualSense Wireless Controller\"")
      ∷ (text "PRODUCT", text "5/54c/ce6/8100")
      ∷ [];
  input_match_usb =
      (text "ID_BUS", text "usb")
      ∷ (text "ID_MODEL", text "DualSense_Wireless_Controller")
      ∷ (text "ID_VENDOR_ID", text "054c")
      ∷ (text "ID_MODEL_ID", text "0ce6")
      ∷ (text "TAGS", text ":seat:")
      ∷ [];
  has_upower = true;
}

abbrev pub xbox_controller : Model
xbox_controller = record {
  vendor_id = text "045E";
  product_ids = text "02FD" ∷ text "0B13" ∷ [];
  input_match_bt =
      (text "ID_BUS", text "bluetooth")
      ∷ (text "NAME", text "\"Xbox Wireless Controller\"")
      ∷ (text "TAGS", text ":seat:")
      ∷ [];
  input_match_usb =
      (text "ID_BUS", text "usb")
      ∷ (text "NAME", text "\"Xbox Wireless Controller\"")
      ∷ (text "ID_USB_VENDOR_ID", text "045e")
      ∷ (text "ID_USB_MODEL_ID", text "02ea")
      ∷ (text "TAGS", text ":seat:")
      ∷ [];
  has_upower = true;
}

abbrev pub horipad_steam : Model
horipad_steam = record {
  vendor_id = text "0F0D";
  product_ids = text "0196" ∷ [];
  input_match_bt =
      (text "ID_BUS", text "bluetooth")
      ∷ (text "NAME", text "\"HORIPAD STEAM\"")
      ∷ (text "TAGS", text ":seat:")
      ∷ [];
  input_match_usb =
      (text "ID_BUS", text "usb")
      ∷ (text "ID_MODEL", text "HORIPAD_STEAM")
      ∷ (text "ID_VENDOR_ID", text "0f0d")
      ∷ (text "ID_MODEL_ID", text "01ab")
      ∷ (text "TAGS", text ":seat:")
      ∷ [];
  has_upower = false;
}

-- The members of the class, those of its base Hidraw (`hidraws` is `devices_` there), and the loop.
pub record Controller : Type 0 where
  pub adapters : List (Text × Unit {0})
  pub devices : List (Text × Properties)
  pub inputs : List (Text × Unit {0})
  pub upower_clients : List (Text × Unit {0})
  pub input_reader : Option ℕ
  pub hidraws : List (Text × Text)
  pub loop : Loop
  pub next : ℕ

-- Before the body of the constructor.
abbrev pub new_controller : Loop → ℕ → Controller
new_controller loop next = record {
  adapters = [];
  devices = [];
  inputs = [];
  upower_clients = [];
  input_reader = none;
  hidraws = [];
  loop = loop;
  next = next;
}

-- convert_mac_to_path, convert_mac_to_upower_path.
unfoldable pub convert_mac_to_path : Text → Text
convert_mac_to_path mac_address =
    text "/org/freedesktop/UPower/devices/battery_ps_controller_battery_"
    ++ map to_lower (replace_byte b':' b'o' mac_address)

abbrev pub one_of : Text → List Text → Bool
one_of pid [] = false
one_of pid (p ∷ ps) = text_eq pid p || one_of pid ps

-- `vid == VENDOR_ID && pid == PRODUCT_ID` of an optional Modalias.
abbrev pub is_ours : Model → Option Modalias → Bool
is_ours model none = false
is_ours model (some m) = text_eq m.vid model.vendor_id && one_of m.pid model.product_ids

-- The constructors of Adapter1, Input1 and UPowerClient: whether they throw nothing. InputReader
-- on a path: whether the reader is valid.
pub record Outside : Type 0 where
  pub makes_adapter : Text → Bool
  pub makes_input : Text → Bool
  pub makes_upower : Text → Bool
  pub opens_reader : Text → Bool

module _ (model : Model) where
  -- The key and the path that a new device gives: empty if there is none.
  abbrev pub hidraw_device_key : Properties → Text
  hidraw_device_key props =
      if is_ours model props.modalias && (props.connected && (props.paired && props.trusted))
      then create_device_key_from_serial_number props.address
      else []

  abbrev pub power_path : Properties → Text
  power_path props =
      if is_ours model props.modalias && model.has_upower
      then convert_mac_to_path props.address
      else []

-- A handler answers the state, and whether it ended without an exception.
abbrev pub unless_thrown : Controller × Bool → (Controller → Controller × Bool) → Controller × Bool
unless_thrown (c, false) k = (c, false)
unless_thrown (c, true) k = k c
