-- ===== src/Examples/Sensors.antt =====
-- The calibration of one controller, and one that refuses it.
use sdbus_cpp_examples.Prelude.{ℕ, ◌≡◌, refl, false, none, some, List, [], ◌∷◌, arith}
use sdbus_cpp_examples.Prelude.Int.{pos, negsuc}
use sdbus_cpp_examples.Bluez.DualSense.{
  Report, no_calibration, is_zero, get_controller_calibration_data, calibrated,
}
use sdbus_cpp_examples.Bluez.DualSense.Input.{
  State, decode_state, little_endian, filled, read_bytes, prints_state, dispatch,
}
use sdbus_cpp_examples.Bluez.DualSense.Reports.{dispatch-report_1}
use sdbus_cpp_examples.Bluez.DualSense.Encoded.{dispatch-encode_state}
use sdbus_cpp_examples.Bluez.DualSense.Sent.{IsWellFormed, Agrees, encode_state}
use sdbus_cpp_examples.Bluez.DualSense.Printed.{print_controller_state_usb}
use sdbus_cpp_examples.Bluez.DualSense.Printed.Uncalibrated.{refused-print}
use sdbus_cpp_examples.Bluez.DualSense.Calibrated.{Defined, read-Defined}

-- The x axis has no range: the check replaces it.
abbrev report : Report
report = record {
  report_id = 5;
  gyro = record {
    pitch_bias = 1;
    yaw_bias = 2;
    roll_bias = 3;
    pitch_plus = 8852;
    pitch_minus = 56684;
    yaw_plus = 8852;
    yaw_minus = 56684;
    roll_plus = 8852;
    roll_minus = 56684;
    speed_plus = 540;
    speed_minus = 540;
  };
  acc = record {
    x_plus = 8192;
    x_minus = 8192;
    y_plus = 8192;
    y_minus = 57344;
    z_plus = 57344;
    z_minus = 8192;
  };
}

read-Defined_example :
    let hw = (get_controller_calibration_data (some report) no_calibration).0 in
    Defined (calibrated hw.accel_x (negsuc 32767))
    × Defined (calibrated hw.accel_y (negsuc 32767))
    × Defined (calibrated hw.accel_z (negsuc 32767))
    × (is_zero hw.gyro_x.sens_denom ≡ false)
    × (is_zero hw.gyro_y.sens_denom ≡ false)
    × (is_zero hw.gyro_z.sens_denom ≡ false)
read-Defined_example = read-Defined report (negsuc 32767) refl (omega arith)

refused : (get_controller_calibration_data none no_calibration).1 ≡ false
unfolding get_controller_calibration_data
refused = refl

dispatch-report_1_example :
    (read : State) × (dispatch 3302 1 (read_bytes (1 ∷ 128 ∷ 127 ∷ [])) ≡ prints_state read)
    × (read.left_stick_x ≡ 1)
    × (read.left_stick_y ≡ 128)
dispatch-report_1_example = dispatch-report_1 1 128 (127 ∷ []) refl

refused-print_example :
    print_controller_state_usb
      (decode_state (filled 77 []))
      (get_controller_calibration_data none no_calibration).0
    ≡ none
refused-print_example = refused-print none (decode_state (filled 77 [])) refused

abbrev sent : State
sent =
    decode_state
      (128 ∷ 127 ∷ 0 ∷ 255 ∷ 10 ∷ 200 ∷ 3 ∷ 40 ∷ 129 ∷ 1 ∷ 9 ∷ 1 ∷ 2 ∷ 3 ∷ 4 ∷ 255 ∷ 255 ∷ 5 ∷ [])

sent-IsWellFormed : IsWellFormed sent
unfolding decode_state little_endian
sent-IsWellFormed = record {
  dpad_range = omega arith;
  button_square_range = omega arith;
  button_cross_range = omega arith;
  button_circle_range = omega arith;
  button_triangle_range = omega arith;
  button_l1_range = omega arith;
  button_r1_range = omega arith;
  button_l2_range = omega arith;
  button_r2_range = omega arith;
  button_create_range = omega arith;
  button_options_range = omega arith;
  button_l3_range = omega arith;
  button_r3_range = omega arith;
  button_home_range = omega arith;
  button_pad_range = omega arith;
  button_mute_range = omega arith;
  button_left_function_range = omega arith;
  button_right_function_range = omega arith;
  button_left_paddle_range = omega arith;
  button_right_paddle_range = omega arith;
  time_stamp_range = omega arith;
  sensor_timestamp_range = omega arith;
  angular_velocity_x_range = omega arith;
  angular_velocity_z_range = omega arith;
  angular_velocity_y_range = omega arith;
  accelerometer_x_range = omega arith;
  accelerometer_y_range = omega arith;
  accelerometer_z_range = omega arith;
  temperature_range = omega arith;
}

dispatch-encode_state_example :
    (read : State) × (dispatch 3302 1 (read_bytes (49 ∷ 17 ∷ encode_state sent 9 (1 ∷ 2 ∷ [])))
      ≡ prints_state read)
    × Agrees read sent
dispatch-encode_state_example =
    dispatch-encode_state sent 1 17 9 (1 ∷ 2 ∷ []) refl refl sent-IsWellFormed

-- A whole state: the sensors and the touch pad.
abbrev bytes : List ℕ
bytes =
    10 ∷ 20 ∷ 30 ∷ 40 ∷ 5 ∷ 6 ∷ 7 ∷ 40 ∷ 1 ∷ 2 ∷ 0 ∷ 1 ∷ 2 ∷ 0 ∷ 0 ∷ 255 ∷ 255 ∷ 1 ∷ 0 ∷ 0 ∷ 1 ∷ []

decode_state_test :
    let s = decode_state bytes in
    (s.dpad ≡ 8)
    × (s.button_cross ≡ 1)
    × (s.button_pad ≡ 1)
    × (s.time_stamp ≡ 513)
    × (s.angular_velocity_x ≡ negsuc 0)
    × (s.angular_velocity_z ≡ pos 1)
    × (s.angular_velocity_y ≡ pos 256)
unfolding decode_state little_endian
decode_state_test = (refl, refl, refl, refl, refl, refl, refl)
