-- ===== src/Bluez/Hidraw.antt =====
-- src/bluez/hidraw.hpp: the hidraw device that belongs to an input device of libudev.
pub mod Keys
pub mod Paths
pub mod Devices
pub mod Listed
pub mod Rounds
pub mod Association
use sdbus_cpp_examples.Prelude.{
  ℕ, ◌+◌, ◌-◌, Bool, true, false, ◌&&◌, ◌||◌, Option, none, some, List, [], ◌∷◌, ◌++◌, map, not,
  ◌*◌, leb, ltb, ◌==◌, if◌then◌else◌, length, take, drop, bind,
}
use sdbus_cpp_examples.Prelude.Text.{Text, text, text_eq, starts_with, find_text, to_upper}
use sdbus_cpp_examples.Prelude.Map.{lookup, insert, has_key, text_key}
use sdbus_cpp_examples.Bluez.Patterns.{literal, search_from}
use sdbus_cpp_examples.Bluez.Device1.{field}

-- The two erasures of a quotation mark.
unfoldable pub unquote_front : Text → Text
unquote_front [] = []
unquote_front (c ∷ s) = if c == b'"' then s else c ∷ s

unfoldable pub unquote_back : Text → Text
unquote_back [] = []
unquote_back (c ∷ []) = if c == b'"' then [] else c ∷ []
unquote_back (c ∷ d ∷ s) = c ∷ unquote_back (d ∷ s)

abbrev pub replace_byte : ℕ → ℕ → Text → Text
replace_byte old new s = map (λ c. if c == old then new else c) s

-- Hidraw::create_device_key_from_serial_number.
unfoldable pub create_device_key_from_serial_number : Text → Text
create_device_key_from_serial_number serial_number =
    text "dev_"
    ++ replace_byte b':' b'_' (map to_upper (unquote_back (unquote_front serial_number)))

-- `s.substr(pos, count)`.
abbrev pub substr : Text → ℕ → ℕ → Text
substr s pos count = take count (drop pos s)

abbrev pub sys_devices : Text
sys_devices = text "/sys/devices/"

-- The comparison behind the tests, given the two results of `find`: `none` is npos.
unfoldable pub compare_common : Text → Text → Text → Option ℕ → Option ℕ → Bool
compare_common prefix input_path hidraw_path none hidraw_pos = false
compare_common prefix input_path hidraw_path (some i) none = false
compare_common prefix input_path hidraw_path (some i) (some h) =
    if ltb i (length prefix) || ltb h (length prefix)
    then false
    else text_eq (substr input_path (length prefix) (i - length prefix))
        (substr hidraw_path (length prefix) (h - length prefix))

-- Hidraw::compare_subsystem_device_paths.
unfoldable pub compare_subsystem_device_paths : Text → Text → Bool
compare_subsystem_device_paths input_path hidraw_path =
    if not (starts_with sys_devices input_path) || not (starts_with sys_devices hidraw_path)
    then false
    else compare_common sys_devices input_path hidraw_path (find_text (text "/input") input_path)
        (find_text (text "/hidraw") hidraw_path)

-- The value of a hexadecimal digit, and `std::stoi(s, nullptr, 16)` on four of them.
abbrev pub hex_digit : ℕ → ℕ
hex_digit c = if leb c b'9' then c - 48 else if leb c b'F' then c - 55 else c - 87

unfoldable pub hex_value : ℕ → Text → ℕ
hex_value n [] = n
hex_value n (c ∷ s) = hex_value (16 * n + hex_digit c) s

-- `/devices/virtual/misc/uhid/([0-9A-Fa-f]{4}):([0-9A-Fa-f]{4}):([0-9A-Fa-f]{4})\..*` at one
-- position; what `.*` takes does not matter.
unfoldable pub uhid_here : Text → Option (Text × Text × Text)
uhid_here s = bind (field (text "/devices/virtual/misc/uhid/") s) λ b.
    bind (field (text ":") b.1)
      λ v. bind (field (text ":") v.1) λ p. bind (literal (text ".") p.1) λ _. some (b.0, v.0, p.0)

-- Hidraw::compare_uhid_vid_pid, with `bus` not negative.
unfoldable pub compare_uhid_vid_pid : Text → ℕ → Text → Text → ℕ
compare_uhid_vid_pid path bus vid pid = elim (search_from uhid_here path) [
  | none ↦ 1
  | some (b, v, p) ↦ if bus == hex_value 0 b && (text_eq vid v && text_eq pid p) then 0 else 1
]

-- Hidraw::bus_str.
unfoldable pub bus_str : ℕ → Text
bus_str bus =
    if bus == 3
    then text "USB"
    else if bus == 4
    then text "HIL"
    else if bus == 5
    then text "Bluetooth"
    else if bus == 6
    then text "Virtual"
    else text "Other"
