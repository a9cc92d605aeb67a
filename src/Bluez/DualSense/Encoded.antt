-- ===== src/Bluez/DualSense/Encoded.antt =====
-- A report 0x31 of a DualSense, as the controller means it.
use Prim.Native.Nat.{bit_and}
use sdbus_cpp_examples.Prelude.{ℕ, ◌<◌, ◌≡◌, refl, List, ◌∷◌, drop, arith}
use sdbus_cpp_examples.Bluez.DualSense.Input.{
  State, decode_state, bits, read_bytes, filled, prints_state, dispatch,
}
use sdbus_cpp_examples.Bluez.DualSense.Reports.{dispatch-report_31}
use sdbus_cpp_examples.Bluez.Packed.{
  bit_0, bit_1, bit_2, bit_3, bit_4, bit_5, bit_6, bit_7, low_bits, high_0, high_1, high_2, high_3,
  little_endian_four, signed-word_8, signed-little_endian,
}
use sdbus_cpp_examples.Bluez.DualSense.Sent.{IsWellFormed, encode_state, Agrees}

decode-encode_state :
    (r : State) (unknown : ℕ) (rest : List ℕ)
    → IsWellFormed r
    → Agrees (decode_state (filled 77 (encode_state r unknown rest))) r
unfolding decode_state encode_state
decode-encode_state r unknown rest v =
    let bytes = filled 77 (encode_state r unknown rest) in
    let zero_set : 0 < 2 = omega arith in
    record {
      same_left_stick_x = refl;
      same_left_stick_y = refl;
      same_right_stick_x = refl;
      same_right_stick_y = refl;
      same_trigger_left = refl;
      same_trigger_right = refl;
      same_seq_no = refl;
      same_dpad =
          low_bits r.dpad r.button_square r.button_cross r.button_circle r.button_triangle
            v.dpad_range v.button_square_range v.button_cross_range v.button_circle_range
            v.button_triangle_range;
      same_button_square =
          high_0 r.dpad r.button_square r.button_cross r.button_circle r.button_triangle
            v.dpad_range v.button_square_range v.button_cross_range v.button_circle_range
            v.button_triangle_range;
      same_button_cross =
          high_1 r.dpad r.button_square r.button_cross r.button_circle r.button_triangle
            v.dpad_range v.button_square_range v.button_cross_range v.button_circle_range
            v.button_triangle_range;
      same_button_circle =
          high_2 r.dpad r.button_square r.button_cross r.button_circle r.button_triangle
            v.dpad_range v.button_square_range v.button_cross_range v.button_circle_range
            v.button_triangle_range;
      same_button_triangle =
          high_3 r.dpad r.button_square r.button_cross r.button_circle r.button_triangle
            v.dpad_range v.button_square_range v.button_cross_range v.button_circle_range
            v.button_triangle_range;
      same_button_l1 =
          bit_0 r.button_l1 r.button_r1 r.button_l2 r.button_r2 r.button_create r.button_options
            r.button_l3 r.button_r3 v.button_l1_range v.button_r1_range v.button_l2_range
            v.button_r2_range v.button_create_range v.button_options_range v.button_l3_range
            v.button_r3_range;
      same_button_r1 =
          bit_1 r.button_l1 r.button_r1 r.button_l2 r.button_r2 r.button_create r.button_options
            r.button_l3 r.button_r3 v.button_l1_range v.button_r1_range v.button_l2_range
            v.button_r2_range v.button_create_range v.button_options_range v.button_l3_range
            v.button_r3_range;
      same_button_l2 =
          bit_2 r.button_l1 r.button_r1 r.button_l2 r.button_r2 r.button_create r.button_options
            r.button_l3 r.button_r3 v.button_l1_range v.button_r1_range v.button_l2_range
            v.button_r2_range v.button_create_range v.button_options_range v.button_l3_range
            v.button_r3_range;
      same_button_r2 =
          bit_3 r.button_l1 r.button_r1 r.button_l2 r.button_r2 r.button_create r.button_options
            r.button_l3 r.button_r3 v.button_l1_range v.button_r1_range v.button_l2_range
            v.button_r2_range v.button_create_range v.button_options_range v.button_l3_range
            v.button_r3_range;
      same_button_create =
          bit_4 r.button_l1 r.button_r1 r.button_l2 r.button_r2 r.button_create r.button_options
            r.button_l3 r.button_r3 v.button_l1_range v.button_r1_range v.button_l2_range
            v.button_r2_range v.button_create_range v.button_options_range v.button_l3_range
            v.button_r3_range;
      same_button_options =
          bit_5 r.button_l1 r.button_r1 r.button_l2 r.button_r2 r.button_create r.button_options
            r.button_l3 r.button_r3 v.button_l1_range v.button_r1_range v.button_l2_range
            v.button_r2_range v.button_create_range v.button_options_range v.button_l3_range
            v.button_r3_range;
      same_button_l3 =
          bit_6 r.button_l1 r.button_r1 r.button_l2 r.button_r2 r.button_create r.button_options
            r.button_l3 r.button_r3 v.button_l1_range v.button_r1_range v.button_l2_range
            v.button_r2_range v.button_create_range v.button_options_range v.button_l3_range
            v.button_r3_range;
      same_button_r3 =
          bit_7 r.button_l1 r.button_r1 r.button_l2 r.button_r2 r.button_create r.button_options
            r.button_l3 r.button_r3 v.button_l1_range v.button_r1_range v.button_l2_range
            v.button_r2_range v.button_create_range v.button_options_range v.button_l3_range
            v.button_r3_range;
      same_button_home =
          bit_0 r.button_home r.button_pad r.button_mute 0 r.button_left_function
            r.button_right_function r.button_left_paddle r.button_right_paddle v.button_home_range
            v.button_pad_range v.button_mute_range zero_set v.button_left_function_range
            v.button_right_function_range v.button_left_paddle_range v.button_right_paddle_range;
      same_button_pad =
          bit_1 r.button_home r.button_pad r.button_mute 0 r.button_left_function
            r.button_right_function r.button_left_paddle r.button_right_paddle v.button_home_range
            v.button_pad_range v.button_mute_range zero_set v.button_left_function_range
            v.button_right_function_range v.button_left_paddle_range v.button_right_paddle_range;
      same_button_mute =
          bit_2 r.button_home r.button_pad r.button_mute 0 r.button_left_function
            r.button_right_function r.button_left_paddle r.button_right_paddle v.button_home_range
            v.button_pad_range v.button_mute_range zero_set v.button_left_function_range
            v.button_right_function_range v.button_left_paddle_range v.button_right_paddle_range;
      same_button_left_function =
          bit_4 r.button_home r.button_pad r.button_mute 0 r.button_left_function
            r.button_right_function r.button_left_paddle r.button_right_paddle v.button_home_range
            v.button_pad_range v.button_mute_range zero_set v.button_left_function_range
            v.button_right_function_range v.button_left_paddle_range v.button_right_paddle_range;
      same_button_right_function =
          bit_5 r.button_home r.button_pad r.button_mute 0 r.button_left_function
            r.button_right_function r.button_left_paddle r.button_right_paddle v.button_home_range
            v.button_pad_range v.button_mute_range zero_set v.button_left_function_range
            v.button_right_function_range v.button_left_paddle_range v.button_right_paddle_range;
      same_button_left_paddle =
          bit_6 r.button_home r.button_pad r.button_mute 0 r.button_left_function
            r.button_right_function r.button_left_paddle r.button_right_paddle v.button_home_range
            v.button_pad_range v.button_mute_range zero_set v.button_left_function_range
            v.button_right_function_range v.button_left_paddle_range v.button_right_paddle_range;
      same_button_right_paddle =
          bit_7 r.button_home r.button_pad r.button_mute 0 r.button_left_function
            r.button_right_function r.button_left_paddle r.button_right_paddle v.button_home_range
            v.button_pad_range v.button_mute_range zero_set v.button_left_function_range
            v.button_right_function_range v.button_left_paddle_range v.button_right_paddle_range;
      same_time_stamp = little_endian_four r.time_stamp (drop 15 bytes) v.time_stamp_range;
      same_angular_velocity_x =
          signed-little_endian r.angular_velocity_x (drop 17 bytes) v.angular_velocity_x_range;
      same_angular_velocity_z =
          signed-little_endian r.angular_velocity_z (drop 19 bytes) v.angular_velocity_z_range;
      same_angular_velocity_y =
          signed-little_endian r.angular_velocity_y (drop 21 bytes) v.angular_velocity_y_range;
      same_accelerometer_x =
          signed-little_endian r.accelerometer_x (drop 23 bytes) v.accelerometer_x_range;
      same_accelerometer_y =
          signed-little_endian r.accelerometer_y (drop 25 bytes) v.accelerometer_y_range;
      same_accelerometer_z =
          signed-little_endian r.accelerometer_z (drop 27 bytes) v.accelerometer_z_range;
      same_sensor_timestamp =
          little_endian_four r.sensor_timestamp (drop 31 bytes) v.sensor_timestamp_range;
      same_temperature = signed-word_8 r.temperature v.temperature_range;
    }

-- Of the bytes that a DualSense sends as a report 0x31 that says that it has a state, a reader that is
-- told of no error or hang-up prints a state, in which the sticks, the triggers, every button, the time
-- stamps, the angular velocities, the accelerations and the temperature are those that the controller
-- meant, each in the range that its bits hold.
pub dispatch-encode_state :
    (r : State) (revents flags unknown : ℕ) (rest : List ℕ)
    → bit_and revents 24 ≡ 0
    → bits 0 1 flags ≡ 1
    → IsWellFormed r
    → (read : State) × (dispatch 3302 revents
          (read_bytes (49 ∷ flags ∷ encode_state r unknown rest))
        ≡ prints_state read)
      × Agrees read r
dispatch-encode_state r revents flags unknown rest q h v = (
  decode_state (filled 77 (encode_state r unknown rest)),
  dispatch-report_31 revents flags (encode_state r unknown rest) q h,
  decode-encode_state r unknown rest v,
)
