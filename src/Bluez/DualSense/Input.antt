-- ===== src/Bluez/DualSense/Input.antt =====
-- src/bluez/ps5_dual_sense/dual_sense_0ce6.h and input_reader.cc: the state in an input report, and
-- what a readable device makes of it. The structs are packed and the machine is little-endian; the
-- bit-fields of a byte start at its lowest bit.
use sdbus_cpp_examples.Prelude.{
  ℕ, zero, suc, ◌+◌, ◌-◌, ◌*◌, ◌/◌, ◌%◌, ◌^◌, not, List, [], ◌∷◌, ◌++◌, length, take, drop,
  replicate, get_or, ltb, ◌==◌, if◌then◌else◌,
}
use Prim.Native.Nat.{bit_and}
use sdbus_cpp_examples.Prelude.Int.{ℤ, pos, negsuc}

abbrev pub byte_at : ℕ → List ℕ → ℕ
byte_at i bytes = get_or bytes i 0

abbrev pub bits : ℕ → ℕ → ℕ → ℕ
bits low width byte = byte / 2 ^ low % 2 ^ width

-- The number in the first `n` bytes.
unfoldable pub little_endian : ℕ → List ℕ → ℕ
little_endian zero bytes = 0
little_endian (suc n) [] = 0
little_endian (suc n) (b ∷ bytes) = b + 256 * little_endian n bytes

-- A signed field of `w` bits.
abbrev pub signed : ℕ → ℕ → ℤ
signed w n = if ltb n (2 ^ (w - 1)) then pos n else negsuc (2 ^ w - n - 1)

-- One finger of the touch data.
pub record Finger : Type 0 where
  pub index : ℕ
  pub not_touching : ℕ
  pub finger_x : ℕ
  pub finger_y : ℕ

unfoldable pub decode_finger : List ℕ → Finger
decode_finger bytes =
    let word = little_endian 4 bytes in
    record {
      index = word % 2 ^ 7;
      not_touching = word / 2 ^ 7 % 2;
      finger_x = word / 2 ^ 8 % 2 ^ 12;
      finger_y = word / 2 ^ 20 % 2 ^ 12;
    }

-- USBGetStateData as far as PrintControllerStateUsb shows it.
pub record State : Type 0 where
  pub left_stick_x : ℕ
  pub left_stick_y : ℕ
  pub right_stick_x : ℕ
  pub right_stick_y : ℕ
  pub trigger_left : ℕ
  pub trigger_right : ℕ
  pub seq_no : ℕ
  pub dpad : ℕ
  pub button_square : ℕ
  pub button_cross : ℕ
  pub button_circle : ℕ
  pub button_triangle : ℕ
  pub button_l1 : ℕ
  pub button_r1 : ℕ
  pub button_l2 : ℕ
  pub button_r2 : ℕ
  pub button_create : ℕ
  pub button_options : ℕ
  pub button_l3 : ℕ
  pub button_r3 : ℕ
  pub button_home : ℕ
  pub button_pad : ℕ
  pub button_mute : ℕ
  pub button_left_function : ℕ
  pub button_right_function : ℕ
  pub button_left_paddle : ℕ
  pub button_right_paddle : ℕ
  pub time_stamp : ℕ
  pub angular_velocity_x : ℤ
  pub angular_velocity_z : ℤ
  pub angular_velocity_y : ℤ
  pub accelerometer_x : ℤ
  pub accelerometer_y : ℤ
  pub accelerometer_z : ℤ
  pub sensor_timestamp : ℕ
  pub temperature : ℤ
  pub finger_0 : Finger
  pub finger_1 : Finger
  pub touch_timestamp : ℕ
  pub power_percent : ℕ
  pub power_state : ℕ
  pub plugged_headphones : ℕ
  pub plugged_mic : ℕ
  pub mic_muted : ℕ
  pub plugged_usb_data : ℕ
  pub plugged_usb_power : ℕ
  pub plugged_external_mic : ℕ
  pub haptic_low_pass_filter : ℕ
  pub trigger_right_stop_location : ℕ
  pub trigger_right_status : ℕ
  pub trigger_left_stop_location : ℕ
  pub trigger_left_status : ℕ
  pub trigger_right_effect : ℕ
  pub trigger_left_effect : ℕ

-- `std::memcpy(&state, bytes, ..)`.
unfoldable pub decode_state : List ℕ → State
decode_state bytes = record {
  left_stick_x = byte_at 0 bytes;
  left_stick_y = byte_at 1 bytes;
  right_stick_x = byte_at 2 bytes;
  right_stick_y = byte_at 3 bytes;
  trigger_left = byte_at 4 bytes;
  trigger_right = byte_at 5 bytes;
  seq_no = byte_at 6 bytes;
  dpad = bits 0 4 (byte_at 7 bytes);
  button_square = bits 4 1 (byte_at 7 bytes);
  button_cross = bits 5 1 (byte_at 7 bytes);
  button_circle = bits 6 1 (byte_at 7 bytes);
  button_triangle = bits 7 1 (byte_at 7 bytes);
  button_l1 = bits 0 1 (byte_at 8 bytes);
  button_r1 = bits 1 1 (byte_at 8 bytes);
  button_l2 = bits 2 1 (byte_at 8 bytes);
  button_r2 = bits 3 1 (byte_at 8 bytes);
  button_create = bits 4 1 (byte_at 8 bytes);
  button_options = bits 5 1 (byte_at 8 bytes);
  button_l3 = bits 6 1 (byte_at 8 bytes);
  button_r3 = bits 7 1 (byte_at 8 bytes);
  button_home = bits 0 1 (byte_at 9 bytes);
  button_pad = bits 1 1 (byte_at 9 bytes);
  button_mute = bits 2 1 (byte_at 9 bytes);
  button_left_function = bits 4 1 (byte_at 9 bytes);
  button_right_function = bits 5 1 (byte_at 9 bytes);
  button_left_paddle = bits 6 1 (byte_at 9 bytes);
  button_right_paddle = bits 7 1 (byte_at 9 bytes);
  time_stamp = little_endian 4 (drop 11 bytes);
  angular_velocity_x = signed 16 (little_endian 2 (drop 15 bytes));
  angular_velocity_z = signed 16 (little_endian 2 (drop 17 bytes));
  angular_velocity_y = signed 16 (little_endian 2 (drop 19 bytes));
  accelerometer_x = signed 16 (little_endian 2 (drop 21 bytes));
  accelerometer_y = signed 16 (little_endian 2 (drop 23 bytes));
  accelerometer_z = signed 16 (little_endian 2 (drop 25 bytes));
  sensor_timestamp = little_endian 4 (drop 27 bytes);
  temperature = signed 8 (byte_at 31 bytes);
  finger_0 = decode_finger (drop 32 bytes);
  finger_1 = decode_finger (drop 36 bytes);
  touch_timestamp = byte_at 40 bytes;
  power_percent = bits 0 4 (byte_at 52 bytes);
  power_state = bits 4 4 (byte_at 52 bytes);
  plugged_headphones = bits 0 1 (byte_at 53 bytes);
  plugged_mic = bits 1 1 (byte_at 53 bytes);
  mic_muted = bits 2 1 (byte_at 53 bytes);
  plugged_usb_data = bits 3 1 (byte_at 53 bytes);
  plugged_usb_power = bits 4 1 (byte_at 53 bytes);
  plugged_external_mic = bits 0 1 (byte_at 54 bytes);
  haptic_low_pass_filter = bits 1 1 (byte_at 54 bytes);
  trigger_right_stop_location = bits 0 4 (byte_at 41 bytes);
  trigger_right_status = bits 4 4 (byte_at 41 bytes);
  trigger_left_stop_location = bits 0 4 (byte_at 42 bytes);
  trigger_left_status = bits 4 4 (byte_at 42 bytes);
  trigger_right_effect = bits 0 4 (byte_at 47 bytes);
  trigger_left_effect = bits 4 4 (byte_at 47 bytes);
}

-- sizeof of USBGetStateData and of ReportIn31.
abbrev pub state_size : ℕ
state_size = 64

abbrev pub report_in_31_size : ℕ
report_in_31_size = 79

-- read(): an error with its errno being EINTR or EAGAIN or not, or the bytes, at most as many as
-- the buffer has.
pub data Read : Type 0 where
  read_again : Read
  read_failed : Read
  read_bytes : List ℕ → Read

-- What a dispatch tells: the state it prints, or what it logs.
pub data Told : Type 0 where
  nothing : Told
  read_error : Told
  prints_state : State → Told
  has_microphone : Told
  unknown_report : ℕ → Told

-- The zeroed buffer with the bytes read in front, and a zeroed struct of `size` bytes that a
-- memcpy of at most the bytes read fills.
abbrev pub filled : ℕ → List ℕ → List ℕ
filled size bytes = take size bytes ++ replicate (size - length bytes) 0

-- The branch of report 0x31, its two flags tested.
unfoldable pub dispatch_31 : List ℕ → Told
dispatch_31 report =
    if not (bits 0 1 (byte_at 1 report) == 0)
    then prints_state (decode_state (drop 2 report))
    else if not (bits 1 1 (byte_at 1 report) == 0)
    then has_microphone
    else nothing

-- The branches on the product and the report id.
unfoldable pub dispatch_report : ℕ → List ℕ → Told
dispatch_report product bytes =
    let report_id = byte_at 0 bytes in
    if not (product == 3302)
    then nothing
    else if report_id == 1
    then prints_state (decode_state (filled state_size bytes))
    else if report_id == 49
    then dispatch_31 (filled report_in_31_size bytes)
    else unknown_report report_id

-- InputReader::dispatch, given what read() answers; POLLERR and POLLHUP are 8 and 16.
unfoldable pub dispatch_read : ℕ → Read → Told
dispatch_read product read_again = nothing
dispatch_read product read_failed = read_error
dispatch_read product (read_bytes []) = nothing
dispatch_read product (read_bytes (b ∷ bytes)) = dispatch_report product (b ∷ bytes)

unfoldable pub dispatch : ℕ → ℕ → Read → Told
dispatch product revents answer =
    if not (bit_and revents 24 == 0) then nothing else dispatch_read product answer
