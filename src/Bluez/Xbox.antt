-- ===== src/Bluez/Xbox.antt =====
-- src/bluez/xbox_controller/xbox_controller_02fd.h and input_reader.cc: the reports of an Xbox
-- controller, and what a readable device makes of them. The structs are packed and the machine is
-- little-endian; the bit-fields of a byte start at its lowest bit. Log output is not modelled, only
-- the report that is printed.
pub mod Reports
use Prim.Native.Nat.{bit_and}
use sdbus_cpp_examples.Prelude.{
  ℕ, suc, ◌+◌, ◌*◌, ◌/◌, ◌%◌, not, Option, none, some, List, [], ◌∷◌, drop, ◌==◌, if◌then◌else◌,
}
use sdbus_cpp_examples.Prelude.Text.{Text, text}
use sdbus_cpp_examples.Bluez.DualSense.Input.{
  byte_at, bits, little_endian, filled, Read, read_again, read_failed, read_bytes,
}

-- inputReport01_t, without its id and its padding.
pub record Report1 : Type 0 where
  pub pointer_x : ℕ
  pub pointer_y : ℕ
  pub pointer_z : ℕ
  pub pointer_rz : ℕ
  pub brake : ℕ
  pub accelerator : ℕ
  pub hat_switch : ℕ
  pub button_1 : ℕ
  pub button_2 : ℕ
  pub button_3 : ℕ
  pub button_4 : ℕ
  pub button_5 : ℕ
  pub button_6 : ℕ
  pub button_7 : ℕ
  pub button_8 : ℕ
  pub button_9 : ℕ
  pub button_10 : ℕ
  pub button_11 : ℕ
  pub button_12 : ℕ
  pub button_13 : ℕ
  pub button_14 : ℕ
  pub button_15 : ℕ
  pub ac_back : ℕ

-- `std::memcpy(&input_report01, bytes, ..)`.
unfoldable pub decode_report_1 : List ℕ → Report1
decode_report_1 bytes = record {
  pointer_x = little_endian 2 (drop 1 bytes);
  pointer_y = little_endian 2 (drop 3 bytes);
  pointer_z = little_endian 2 (drop 5 bytes);
  pointer_rz = little_endian 2 (drop 7 bytes);
  brake = little_endian 2 (drop 9 bytes) % 1024;
  accelerator = little_endian 2 (drop 11 bytes) % 1024;
  hat_switch = bits 0 4 (byte_at 13 bytes);
  button_1 = bits 0 1 (byte_at 14 bytes);
  button_2 = bits 1 1 (byte_at 14 bytes);
  button_3 = bits 2 1 (byte_at 14 bytes);
  button_4 = bits 3 1 (byte_at 14 bytes);
  button_5 = bits 4 1 (byte_at 14 bytes);
  button_6 = bits 5 1 (byte_at 14 bytes);
  button_7 = bits 6 1 (byte_at 14 bytes);
  button_8 = bits 7 1 (byte_at 14 bytes);
  button_9 = bits 0 1 (byte_at 15 bytes);
  button_10 = bits 1 1 (byte_at 15 bytes);
  button_11 = bits 2 1 (byte_at 15 bytes);
  button_12 = bits 3 1 (byte_at 15 bytes);
  button_13 = bits 4 1 (byte_at 15 bytes);
  button_14 = bits 5 1 (byte_at 15 bytes);
  button_15 = bits 6 1 (byte_at 15 bytes);
  ac_back = bits 0 1 (byte_at 16 bytes);
}

-- sizeof of inputReport01_t, inputReport02_t and inputReport04_t.
abbrev pub report_1_size : ℕ
report_1_size = 17

abbrev pub report_2_size : ℕ
report_2_size = 2

abbrev pub report_4_size : ℕ
report_4_size = 2

-- `std::round(static_cast<float>(strength) / 255.0f * 100.0f)`: no strength is near enough to the
-- middle of two integers for the rounding of the floats to matter.
unfoldable pub battery_percentage : ℕ → ℕ
battery_percentage strength = (200 * strength + 255) / 510

-- What a dispatch tells: the report it prints, or what it logs.
pub data Told : Type 0 where
  nothing : Told
  read_error : Told
  prints_report_1 : Report1 → Told
  prints_home : ℕ → Told
  prints_battery : ℕ → Told
  unknown_report : ℕ → Told

-- The branches on the product and the report id.
unfoldable pub dispatch_report : ℕ → List ℕ → Told
dispatch_report product bytes =
    let report_id = byte_at 0 bytes in
    if not (product == 765)
    then nothing
    else if report_id == 1
    then prints_report_1 (decode_report_1 (filled report_1_size bytes))
    else if report_id == 2
    then prints_home (bits 0 1 (byte_at 1 (filled report_2_size bytes)))
    else if report_id == 4
    then prints_battery (battery_percentage (byte_at 1 (filled report_4_size bytes)))
    else unknown_report report_id

-- InputReader::dispatch, given what read() answers; POLLERR and POLLHUP are 8 and 16.
unfoldable pub dispatch_read : ℕ → Read → Told
dispatch_read product read_again = nothing
dispatch_read product read_failed = read_error
dispatch_read product (read_bytes []) = nothing
dispatch_read product (read_bytes (b ∷ bytes)) = dispatch_report product (b ∷ bytes)

unfoldable pub dispatch : ℕ → ℕ → Read → Told
dispatch product revents answer =
    if not (bit_and revents 24 == 0) then nothing else dispatch_read product answer

-- dpad_to_string of the hat switch; `Direction::None` is 0.
abbrev pub dpad_to_string : ℕ → Text
dpad_to_string dpad =
    if dpad == 1
    then text "North"
    else if dpad == 2
    then text "NorthEast"
    else if dpad == 3
    then text "East"
    else if dpad == 4
    then text "SouthEast"
    else if dpad == 5
    then text "South"
    else if dpad == 6
    then text "SouthWest"
    else if dpad == 7
    then text "West"
    else if dpad == 8
    then text "NorthWest"
    else text "None"
