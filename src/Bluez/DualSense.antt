-- ===== src/Bluez/DualSense.antt =====
-- src/bluez/ps5_dual_sense/input_reader.cc: the calibration of the motion sensors and its use on a
-- reading. An `int` is an integer; `none` is what C++ leaves undefined, a division by zero or a
-- result that an int32_t cannot hold.
pub mod Input
pub mod Names
pub mod Features
pub mod Simple
pub mod Printed
pub mod Reports
pub mod Sent
pub mod Encoded
pub mod Calibrated
use sdbus_cpp_examples.Prelude.{
  ℕ, zero, suc, ◌+◌, ◌-◌, ◌*◌, ◌/◌, ◌%◌, Bool, true, false, Option, none, some, bind, leb, ltb,
  ◌==◌, if◌then◌else◌,
}
use sdbus_cpp_examples.Prelude.Int.{ℤ, pos, negsuc, sub_ℕ, ◌+ℤ◌, ◌-ℤ◌, ◌*ℤ◌}

-- The data of feature report 5, after its id.
pub record Gyro : Type 0 where
  pub pitch_bias : ℕ
  pub yaw_bias : ℕ
  pub roll_bias : ℕ
  pub pitch_plus : ℕ
  pub pitch_minus : ℕ
  pub yaw_plus : ℕ
  pub yaw_minus : ℕ
  pub roll_plus : ℕ
  pub roll_minus : ℕ
  pub speed_plus : ℕ
  pub speed_minus : ℕ

pub record Acc : Type 0 where
  pub x_plus : ℕ
  pub x_minus : ℕ
  pub y_plus : ℕ
  pub y_minus : ℕ
  pub z_plus : ℕ
  pub z_minus : ℕ

pub record Report : Type 0 where
  pub report_id : ℕ
  pub gyro : Gyro
  pub acc : Acc

pub record CalibrationData : Type 0 where
  pub abs_code : ℕ
  pub bias : ℤ
  pub sens_numer : ℤ
  pub sens_denom : ℤ

-- HardwareCalibrationData, an array of three axes each.
pub record Hardware : Type 0 where
  pub gyro_x : CalibrationData
  pub gyro_y : CalibrationData
  pub gyro_z : CalibrationData
  pub accel_x : CalibrationData
  pub accel_y : CalibrationData
  pub accel_z : CalibrationData

-- `hw_cal_data_{}`.
abbrev pub no_axis : CalibrationData
no_axis = record { abs_code = 0; bias = pos 0; sens_numer = pos 0; sens_denom = pos 0 }

abbrev pub no_calibration : Hardware
no_calibration = record {
  gyro_x = no_axis;
  gyro_y = no_axis;
  gyro_z = no_axis;
  accel_x = no_axis;
  accel_y = no_axis;
  accel_z = no_axis;
}

-- `abs(a - b)` of two uint16_t, as ints.
abbrev pub distance : ℕ → ℕ → ℕ
distance a b = a - b + (b - a)

-- C++'s `/` and `%` on ints: towards zero, with the sign of the dividend on the remainder. The
-- divisor is not zero where they are used.
abbrev pub negated : ℕ → ℤ
negated n = sub_ℕ 0 n

unfoldable pub quotient : ℤ → ℤ → ℤ
quotient (pos a) (pos b) = pos (a / b)
quotient (pos a) (negsuc b) = negated (a / suc b)
quotient (negsuc a) (pos b) = negated (suc a / b)
quotient (negsuc a) (negsuc b) = pos (suc a / suc b)

unfoldable pub remainder : ℤ → ℤ → ℤ
remainder (pos a) (pos b) = pos (a % b)
remainder (pos a) (negsuc b) = pos (a % suc b)
remainder (negsuc a) (pos b) = negated (suc a % b)
remainder (negsuc a) (negsuc b) = negated (suc a % suc b)

abbrev pub is_zero : ℤ → Bool
is_zero (pos n) = n == 0
is_zero (negsuc n) = false

-- static_cast<std::int16_t>.
abbrev pub wrap_int16 : ℕ → ℤ
wrap_int16 n = if ltb n 32768 then pos n else sub_ℕ n 65536

abbrev pub to_int16 : ℤ → ℤ
to_int16 (pos n) = wrap_int16 (n % 65536)
to_int16 (negsuc n) = wrap_int16 (65535 - n % 65536)

-- One axis of the gyroscope, and of the accelerometer.
unfoldable pub gyro_axis : ℕ → ℕ → ℕ → ℕ → ℕ → CalibrationData
gyro_axis abs_code speed_2x bias plus minus = record {
  abs_code = abs_code;
  bias = pos 0;
  sens_numer = pos (speed_2x * 1024);
  sens_denom = pos (distance plus bias + distance minus bias);
}

unfoldable pub accel_axis : ℕ → ℕ → ℕ → CalibrationData
accel_axis abs_code plus minus =
    let range_2g = sub_ℕ plus minus in
    record {
      abs_code = abs_code;
      bias = to_int16 (pos plus -ℤ quotient range_2g (pos 2));
      sens_numer = pos 16384;
      sens_denom = range_2g;
    }

-- The sanity checks, for the axis `i`: the range is that of the gyroscope or the accelerometer.
unfoldable pub check_axis : ℕ → ℕ → CalibrationData → CalibrationData
check_axis range i axis =
    if is_zero axis.sens_denom
    then record { abs_code = 3 + i; bias = pos 0; sens_numer = pos range; sens_denom = pos 32767 }
    else axis

unfoldable pub calibrate : Report → Hardware
calibrate r =
    let g = r.gyro in
    let a = r.acc in
    let speed_2x = g.speed_plus + g.speed_minus in
    record {
      gyro_x = check_axis 2097152 0 (gyro_axis 3 speed_2x g.pitch_bias g.pitch_plus g.pitch_minus);
      gyro_y = check_axis 2097152 1 (gyro_axis 4 speed_2x g.yaw_bias g.yaw_plus g.yaw_minus);
      gyro_z = check_axis 2097152 2 (gyro_axis 5 speed_2x g.roll_bias g.roll_plus g.roll_minus);
      accel_x = check_axis 32768 0 (accel_axis 0 a.x_plus a.x_minus);
      accel_y = check_axis 32768 1 (accel_axis 1 a.y_plus a.y_minus);
      accel_z = check_axis 32768 2 (accel_axis 2 a.z_plus a.z_minus);
    }

-- InputReader::GetControllerCalibrationData, given what the ioctl answers (`none` where it fails):
-- `hw_cal_data_` after it, and whether it succeeded. open_and_init goes on in either case.
unfoldable pub get_controller_calibration_data : Option Report → Hardware → Hardware × Bool
get_controller_calibration_data none old = (old, false)
get_controller_calibration_data (some r) old =
    if r.report_id == 5 then (calibrate r, true) else (old, false)

abbrev pub magnitude : ℤ → ℕ
magnitude (pos n) = n
magnitude (negsuc n) = suc n

-- An int32_t, where C++ defines the result.
abbrev pub fits : ℤ → Bool
fits (pos n) = leb n 2147483647
fits (negsuc n) = leb n 2147483647

abbrev pub int32 : ℤ → Option ℤ
int32 z = if fits z then some z else none

-- mult_frac<int32_t, int16_t, int32_t>.
unfoldable pub mult_frac : ℤ → ℤ → ℤ → Option ℤ
mult_frac x n d =
    if is_zero d
    then none
    else bind (int32 (quotient x d *ℤ n))
        λ whole. bind (int32 (remainder x d *ℤ n)) λ part. int32 (whole +ℤ quotient part d)

-- `acc_x` and its like in PrintControllerStateUsb.
unfoldable pub calibrated : CalibrationData → ℤ → Option ℤ
calibrated axis raw = mult_frac axis.sens_numer raw axis.sens_denom
