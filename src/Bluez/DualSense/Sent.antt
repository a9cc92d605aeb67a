-- ===== src/Bluez/DualSense/Sent.antt =====
-- The bytes of a DualSense's report 0x31, written down from what each field means.
use sdbus_cpp_examples.Prelude.{ℕ, ◌/◌, ◌%◌, ◌<◌, ◌≡◌, List, ◌∷◌}
use sdbus_cpp_examples.Bluez.DualSense.Input.{State}
use sdbus_cpp_examples.Bluez.Packed.{packed, beside, word, FitsWord}

-- The ranges that the fields' bits hold.
pub record IsWellFormed (r : State) : Type 0 where
  pub dpad_range : r.dpad < 16
  pub button_square_range : r.button_square < 2
  pub button_cross_range : r.button_cross < 2
  pub button_circle_range : r.button_circle < 2
  pub button_triangle_range : r.button_triangle < 2
  pub button_l1_range : r.button_l1 < 2
  pub button_r1_range : r.button_r1 < 2
  pub button_l2_range : r.button_l2 < 2
  pub button_r2_range : r.button_r2 < 2
  pub button_create_range : r.button_create < 2
  pub button_options_range : r.button_options < 2
  pub button_l3_range : r.button_l3 < 2
  pub button_r3_range : r.button_r3 < 2
  pub button_home_range : r.button_home < 2
  pub button_pad_range : r.button_pad < 2
  pub button_mute_range : r.button_mute < 2
  pub button_left_function_range : r.button_left_function < 2
  pub button_right_function_range : r.button_right_function < 2
  pub button_left_paddle_range : r.button_left_paddle < 2
  pub button_right_paddle_range : r.button_right_paddle < 2
  pub time_stamp_range : r.time_stamp < 4294967296
  pub sensor_timestamp_range : r.sensor_timestamp < 4294967296
  pub angular_velocity_x_range : FitsWord 16 r.angular_velocity_x
  pub angular_velocity_z_range : FitsWord 16 r.angular_velocity_z
  pub angular_velocity_y_range : FitsWord 16 r.angular_velocity_y
  pub accelerometer_x_range : FitsWord 16 r.accelerometer_x
  pub accelerometer_y_range : FitsWord 16 r.accelerometer_y
  pub accelerometer_z_range : FitsWord 16 r.accelerometer_z
  pub temperature_range : FitsWord 8 r.temperature

-- The bytes of the sticks, the triggers, the buttons and the sensors, with those of the touch pad and
-- the rest of the state behind them. `unknown` is UNK_COUNTER, which is not shown.
unfoldable pub encode_state : State → ℕ → List ℕ → List ℕ
encode_state r unknown rest =
    r.left_stick_x
    ∷ r.left_stick_y
    ∷ r.right_stick_x
    ∷ r.right_stick_y
    ∷ r.trigger_left
    ∷ r.trigger_right
    ∷ r.seq_no
    ∷ beside r.dpad r.button_square r.button_cross r.button_circle r.button_triangle
    ∷ packed r.button_l1 r.button_r1 r.button_l2 r.button_r2 r.button_create r.button_options
        r.button_l3 r.button_r3
    ∷ packed r.button_home r.button_pad r.button_mute 0 r.button_left_function
        r.button_right_function r.button_left_paddle r.button_right_paddle
    ∷ unknown
    ∷ r.time_stamp % 256
    ∷ r.time_stamp / 256 % 256
    ∷ r.time_stamp / 65536 % 256
    ∷ r.time_stamp / 16777216
    ∷ word 16 r.angular_velocity_x % 256
    ∷ word 16 r.angular_velocity_x / 256
    ∷ word 16 r.angular_velocity_z % 256
    ∷ word 16 r.angular_velocity_z / 256
    ∷ word 16 r.angular_velocity_y % 256
    ∷ word 16 r.angular_velocity_y / 256
    ∷ word 16 r.accelerometer_x % 256
    ∷ word 16 r.accelerometer_x / 256
    ∷ word 16 r.accelerometer_y % 256
    ∷ word 16 r.accelerometer_y / 256
    ∷ word 16 r.accelerometer_z % 256
    ∷ word 16 r.accelerometer_z / 256
    ∷ r.sensor_timestamp % 256
    ∷ r.sensor_timestamp / 256 % 256
    ∷ r.sensor_timestamp / 65536 % 256
    ∷ r.sensor_timestamp / 16777216
    ∷ word 8 r.temperature
    ∷ rest

-- The two states agree in what has to do with the sticks, the triggers, the buttons and the sensors.
pub record Agrees (s r : State) : Type 0 where
  pub same_left_stick_x : s.left_stick_x ≡ r.left_stick_x
  pub same_left_stick_y : s.left_stick_y ≡ r.left_stick_y
  pub same_right_stick_x : s.right_stick_x ≡ r.right_stick_x
  pub same_right_stick_y : s.right_stick_y ≡ r.right_stick_y
  pub same_trigger_left : s.trigger_left ≡ r.trigger_left
  pub same_trigger_right : s.trigger_right ≡ r.trigger_right
  pub same_seq_no : s.seq_no ≡ r.seq_no
  pub same_dpad : s.dpad ≡ r.dpad
  pub same_button_square : s.button_square ≡ r.button_square
  pub same_button_cross : s.button_cross ≡ r.button_cross
  pub same_button_circle : s.button_circle ≡ r.button_circle
  pub same_button_triangle : s.button_triangle ≡ r.button_triangle
  pub same_button_l1 : s.button_l1 ≡ r.button_l1
  pub same_button_r1 : s.button_r1 ≡ r.button_r1
  pub same_button_l2 : s.button_l2 ≡ r.button_l2
  pub same_button_r2 : s.button_r2 ≡ r.button_r2
  pub same_button_create : s.button_create ≡ r.button_create
  pub same_button_options : s.button_options ≡ r.button_options
  pub same_button_l3 : s.button_l3 ≡ r.button_l3
  pub same_button_r3 : s.button_r3 ≡ r.button_r3
  pub same_button_home : s.button_home ≡ r.button_home
  pub same_button_pad : s.button_pad ≡ r.button_pad
  pub same_button_mute : s.button_mute ≡ r.button_mute
  pub same_button_left_function : s.button_left_function ≡ r.button_left_function
  pub same_button_right_function : s.button_right_function ≡ r.button_right_function
  pub same_button_left_paddle : s.button_left_paddle ≡ r.button_left_paddle
  pub same_button_right_paddle : s.button_right_paddle ≡ r.button_right_paddle
  pub same_time_stamp : s.time_stamp ≡ r.time_stamp
  pub same_angular_velocity_x : s.angular_velocity_x ≡ r.angular_velocity_x
  pub same_angular_velocity_z : s.angular_velocity_z ≡ r.angular_velocity_z
  pub same_angular_velocity_y : s.angular_velocity_y ≡ r.angular_velocity_y
  pub same_accelerometer_x : s.accelerometer_x ≡ r.accelerometer_x
  pub same_accelerometer_y : s.accelerometer_y ≡ r.accelerometer_y
  pub same_accelerometer_z : s.accelerometer_z ≡ r.accelerometer_z
  pub same_sensor_timestamp : s.sensor_timestamp ≡ r.sensor_timestamp
  pub same_temperature : s.temperature ≡ r.temperature
