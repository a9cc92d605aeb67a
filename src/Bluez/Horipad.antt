-- ===== src/Bluez/Horipad.antt =====
-- src/bluez/horipad_steam/horipad_stream_01ab_0196.h and input_reader.cc: the reports of a Horipad,
-- and what a readable device makes of them. The structs are packed; the bit-fields of a byte start at
-- its lowest bit. Log output is not modelled, only the report that is printed.
pub mod Reports
use Prim.Native.Nat.{bit_and}
use sdbus_cpp_examples.Prelude.{ℕ, false, not, ◌||◌, List, [], ◌∷◌, take, drop, ◌==◌, if◌then◌else◌}
use sdbus_cpp_examples.Prelude.Text.{Text, text}
use sdbus_cpp_examples.Printing.Hexdump.{hexdump}
use sdbus_cpp_examples.Bluez.DualSense.Input.{
  byte_at, bits, filled, Read, read_again, read_failed, read_bytes,
}

-- inputReport07_t, without its id and the bytes that are not shown.
pub record Report7 : Type 0 where
  pub gamepad_x : ℕ
  pub gamepad_y : ℕ
  pub gamepad_z : ℕ
  pub gamepad_rz : ℕ
  pub hat_switch : ℕ
  pub button_1 : ℕ
  pub button_2 : ℕ
  pub button_3 : ℕ
  pub button_4 : ℕ
  pub button_5 : ℕ
  pub button_6 : ℕ
  pub button_7 : ℕ
  pub button_8 : ℕ
  pub button_9 : ℕ
  pub button_10 : ℕ
  pub button_11 : ℕ
  pub button_12 : ℕ
  pub button_13 : ℕ
  pub button_14 : ℕ
  pub button_15 : ℕ
  pub button_16 : ℕ
  pub button_17 : ℕ
  pub button_18 : ℕ
  pub button_19 : ℕ
  pub button_20 : ℕ
  pub accelerator : ℕ
  pub brake : ℕ

-- `std::memcpy(&input_report07, bytes, ..)`.
unfoldable pub decode_report_7 : List ℕ → Report7
decode_report_7 bytes = record {
  gamepad_x = byte_at 1 bytes;
  gamepad_y = byte_at 2 bytes;
  gamepad_z = byte_at 3 bytes;
  gamepad_rz = byte_at 4 bytes;
  hat_switch = bits 0 4 (byte_at 5 bytes);
  button_1 = bits 4 1 (byte_at 5 bytes);
  button_2 = bits 5 1 (byte_at 5 bytes);
  button_3 = bits 6 1 (byte_at 5 bytes);
  button_4 = bits 7 1 (byte_at 5 bytes);
  button_5 = bits 0 1 (byte_at 6 bytes);
  button_6 = bits 1 1 (byte_at 6 bytes);
  button_7 = bits 2 1 (byte_at 6 bytes);
  button_8 = bits 3 1 (byte_at 6 bytes);
  button_9 = bits 4 1 (byte_at 6 bytes);
  button_10 = bits 5 1 (byte_at 6 bytes);
  button_11 = bits 6 1 (byte_at 6 bytes);
  button_12 = bits 7 1 (byte_at 6 bytes);
  button_13 = bits 0 1 (byte_at 7 bytes);
  button_14 = bits 1 1 (byte_at 7 bytes);
  button_15 = bits 2 1 (byte_at 7 bytes);
  button_16 = bits 3 1 (byte_at 7 bytes);
  button_17 = bits 4 1 (byte_at 7 bytes);
  button_18 = bits 5 1 (byte_at 7 bytes);
  button_19 = bits 6 1 (byte_at 7 bytes);
  button_20 = bits 7 1 (byte_at 7 bytes);
  accelerator = byte_at 8 bytes;
  brake = byte_at 9 bytes;
}

-- sizeof of inputReport07_t, and of inputReport10_t, inputReport12_t and inputReport14_t.
abbrev pub report_7_size : ℕ
report_7_size = 48

abbrev pub vendor_report_size : ℕ
vendor_report_size = 64

-- PrintInputReport10, PrintInputReport12 and PrintInputReport14: a dump of the bytes behind the id.
unfoldable pub vendor_dump : List ℕ → Text
vendor_dump report = hexdump 400 false (drop 1 report)

-- What a dispatch tells: the report it prints, or what it logs.
pub data Told : Type 0 where
  nothing : Told
  read_error : Told
  prints_report_7 : Report7 → Told
  prints_vendor_report : ℕ → Text → Told
  unknown_report : ℕ → Told

-- The branches on the product and the report id.
unfoldable pub dispatch_report : ℕ → List ℕ → Told
dispatch_report product bytes =
    let report_id = byte_at 0 bytes in
    if not (product == 427 || product == 406)
    then nothing
    else if report_id == 7
    then prints_report_7 (decode_report_7 (filled report_7_size bytes))
    else if report_id == 10 || (report_id == 12 || report_id == 14)
    then prints_vendor_report report_id (vendor_dump (filled vendor_report_size bytes))
    else unknown_report report_id

-- InputReader::dispatch, given what read() answers; POLLERR and POLLHUP are 8 and 16.
unfoldable pub dispatch_read : ℕ → Read → Told
dispatch_read product read_again = nothing
dispatch_read product read_failed = read_error
dispatch_read product (read_bytes []) = nothing
dispatch_read product (read_bytes (b ∷ bytes)) = dispatch_report product (b ∷ bytes)

unfoldable pub dispatch : ℕ → ℕ → Read → Told
dispatch product revents answer =
    if not (bit_and revents 24 == 0) then nothing else dispatch_read product answer

-- dpad_to_string of the hat switch; `Direction::North` is 0.
abbrev pub dpad_to_string : ℕ → Text
dpad_to_string dpad =
    if dpad == 0
    then text "North"
    else if dpad == 1
    then text "NorthEast"
    else if dpad == 2
    then text "East"
    else if dpad == 3
    then text "SouthEast"
    else if dpad == 4
    then text "South"
    else if dpad == 5
    then text "SouthWest"
    else if dpad == 6
    then text "West"
    else if dpad == 7
    then text "NorthWest"
    else text "None"
