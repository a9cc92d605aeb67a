-- ===== src/Bluez/DualSense/Calibrated.antt =====
-- When a reading has a calibrated value.
use native.Mathlib.Nat.{div-le_self, mul-le-mul, mod-le}
use sdbus_cpp_examples.Prelude.{
  ℕ, suc, ◌+◌, ◌*◌, ◌/◌, ◌%◌, ◌≤◌, ◌≡◌, refl, ap, Bool, false, Option, none, some, ◌==◌, if_rule,
  arith,
}
use sdbus_cpp_examples.Prelude.Int.{ℤ, pos, negsuc, sub_ℕ, ◌+ℤ◌, ◌*ℤ◌}
use sdbus_cpp_examples.Bluez.DualSense.{
  Report, CalibrationData, Hardware, no_axis, no_calibration, quotient, remainder, is_zero,
  accel_axis, check_axis, calibrate, get_controller_calibration_data, magnitude, int32, mult_frac,
  calibrated, negated,
}

magnitude-sub_ℕ : (n : ℕ) → magnitude (negated n) ≡ n
magnitude-sub_ℕ n = ground arith

magnitude-add : (a b : ℤ) → magnitude (a +ℤ b) ≤ magnitude a + magnitude b
unfolding ◌+ℤ◌
magnitude-add a b = ground arith

magnitude-quotient : (a b : ℤ) → magnitude (quotient a b) ≤ magnitude a
unfolding quotient
magnitude-quotient (pos a) (pos b) = div-le_self a b
magnitude-quotient (pos a) (negsuc b) = rw (magnitude-sub_ℕ (a / suc b)) (div-le_self a (suc b))
magnitude-quotient (negsuc a) (pos b) = rw (magnitude-sub_ℕ (suc a / b)) (div-le_self (suc a) b)
magnitude-quotient (negsuc a) (negsuc b) = div-le_self (suc a) (suc b)

magnitude-remainder : (a b : ℤ) → magnitude (remainder a b) ≤ magnitude a
unfolding remainder
magnitude-remainder (pos a) (pos b) = mod-le a b
magnitude-remainder (pos a) (negsuc b) = mod-le a (suc b)
magnitude-remainder (negsuc a) (pos b) = rw (magnitude-sub_ℕ (suc a % b)) (mod-le (suc a) b)
magnitude-remainder (negsuc a) (negsuc b) =
    rw (magnitude-sub_ℕ (suc a % suc b)) (mod-le (suc a) (suc b))

magnitude-mul : (a b : ℤ) → magnitude (a *ℤ b) ≡ magnitude a * magnitude b
unfolding ◌*ℤ◌
magnitude-mul (pos a) (pos b) = ground arith
magnitude-mul (pos a) (negsuc b) = ground arith
magnitude-mul (negsuc a) (pos b) = ground arith
magnitude-mul (negsuc a) (negsuc b) = ground arith

int32-small : (z : ℤ) → magnitude z ≤ 2147483647 → int32 z ≡ some z
int32-small (pos n) h = ground arith
int32-small (negsuc n) h = ground arith

abbrev pub Defined : Option ℤ → Type 0
Defined o = (z : ℤ) × (o ≡ some z)

mult_frac-Defined :
    (x n d : ℤ)
    → is_zero d ≡ false
    → magnitude (quotient x d *ℤ n) ≤ 1073741823
    → magnitude (remainder x d *ℤ n) ≤ 1073741823
    → Defined (mult_frac x n d)
unfolding mult_frac
mult_frac-Defined x n d z q r =
    let whole = quotient x d *ℤ n in
    let part = remainder x d *ℤ n in
    let sum = whole +ℤ quotient part d in
    (
      sum,
      ground (
        arith,
        int32-small whole,
        int32-small part,
        int32-small sum,
        magnitude-add whole (quotient part d),
        magnitude-quotient part d,
      ),
    )

small-mul :
    (a b : ℤ) (m : ℕ)
    → magnitude a ≤ m
    → magnitude b ≤ 32768
    → m * 32768 ≤ 1073741823
    → magnitude (a *ℤ b) ≤ 1073741823
small-mul a b m h k l = let le = mul-le-mul h k in omega (arith, magnitude-mul a b, le)

fallback :
    (magnitude (quotient (pos 32768) (pos 32767)) ≤ 1)
    × (magnitude (remainder (pos 32768) (pos 32767)) ≤ 1)
unfolding quotient remainder
fallback = (omega arith, omega arith)

-- A checked axis of the accelerometer; `plus` and `minus` are as in the report.
accel-Defined :
    (i code plus minus : ℕ) (raw : ℤ)
    → magnitude raw ≤ 32768
    → Defined (calibrated (check_axis 32768 i (accel_axis code plus minus)) raw)
unfolding calibrated check_axis accel_axis
accel-Defined i code plus minus raw h =
    if_rule (λ (axis : CalibrationData). Defined (mult_frac axis.sens_numer raw axis.sens_denom))
      (is_zero (sub_ℕ plus minus)) _ _
      (λ _.
        mult_frac-Defined (pos 32768) raw (pos 32767) refl
          (small-mul (quotient (pos 32768) (pos 32767)) raw 1 fallback.0 h (omega arith))
          (small-mul (remainder (pos 32768) (pos 32767)) raw 1 fallback.1 h (omega arith)))
      (λ nonzero.
        mult_frac-Defined (pos 16384) raw (sub_ℕ plus minus) nonzero
          (small-mul (quotient (pos 16384) (sub_ℕ plus minus)) raw 16384
            (magnitude-quotient (pos 16384) (sub_ℕ plus minus)) h (omega arith))
          (small-mul (remainder (pos 16384) (sub_ℕ plus minus)) raw 16384
            (magnitude-remainder (pos 16384) (sub_ℕ plus minus)) h (omega arith)))

uncalibrated : (raw : ℤ) → calibrated no_axis raw ≡ none
unfolding calibrated mult_frac
uncalibrated raw = refl

gyro-nonzero :
    (range i : ℕ) (axis : CalibrationData) → is_zero (check_axis range i axis).sens_denom ≡ false
unfolding check_axis
gyro-nonzero range i axis =
    if_rule (λ (a : CalibrationData). is_zero a.sens_denom ≡ false) (is_zero axis.sens_denom) _ _
      (λ _. refl) (λ e. e)

calibrate-Defined :
    (r : Report) (raw : ℤ)
    → magnitude raw ≤ 32768
    → Defined (calibrated (calibrate r).accel_x raw)
      × Defined (calibrated (calibrate r).accel_y raw)
      × Defined (calibrated (calibrate r).accel_z raw)
unfolding calibrate
calibrate-Defined r raw h = (
  accel-Defined 0 0 r.acc.x_plus r.acc.x_minus raw h,
  accel-Defined 1 1 r.acc.y_plus r.acc.y_minus raw h,
  accel-Defined 2 2 r.acc.z_plus r.acc.z_minus raw h,
)

calibrate-nonzero :
    (r : Report)
    → (is_zero (calibrate r).gyro_x.sens_denom ≡ false)
      × (is_zero (calibrate r).gyro_y.sens_denom ≡ false)
      × (is_zero (calibrate r).gyro_z.sens_denom ≡ false)
unfolding calibrate
calibrate-nonzero r = (gyro-nonzero 2097152 0 _, gyro-nonzero 2097152 1 _, gyro-nonzero 2097152 2 _)

-- Once the calibration data are read, whatever they are, the calibrated value of each acceleration
-- that 16 bits hold is defined: no division by zero, no overflow. And no gyroscope divides by zero.
pub read-Defined :
    (r : Report) (raw : ℤ)
    → r.report_id ≡ 5
    → magnitude raw ≤ 32768
    → let hw = (get_controller_calibration_data (some r) no_calibration).0 in
      Defined (calibrated hw.accel_x raw)
      × Defined (calibrated hw.accel_y raw)
      × Defined (calibrated hw.accel_z raw)
      × (is_zero hw.gyro_x.sens_denom ≡ false)
      × (is_zero hw.gyro_y.sens_denom ≡ false)
      × (is_zero hw.gyro_z.sens_denom ≡ false)
unfolding get_controller_calibration_data
read-Defined r raw e h =
    if_rule P (r.report_id == 5) _ _
      (λ _.
        let (x, y, z) = calibrate-Defined r raw h in
        let (a, b, c) = calibrate-nonzero r in (x, y, z, a, b, c))
      (λ n. absurd (cc (ap (λ k. k == 5) e)))
  where
    P : Hardware × Bool → Type 0
    P (hw, ok) =
        Defined (calibrated hw.accel_x raw)
        × Defined (calibrated hw.accel_y raw)
        × Defined (calibrated hw.accel_z raw)
        × (is_zero hw.gyro_x.sens_denom ≡ false)
        × (is_zero hw.gyro_y.sens_denom ≡ false)
        × (is_zero hw.gyro_z.sens_denom ≡ false)

-- If the device refuses the calibration data, or answers with another report, the reader goes on
-- with denominators of zero: the value of every reading, on each of the six axes, is undefined.
pub refused-none :
    (o : Option Report) (raw : ℤ)
    → (get_controller_calibration_data o no_calibration).1 ≡ false
    → let hw = (get_controller_calibration_data o no_calibration).0 in
      (calibrated hw.gyro_x raw ≡ none)
      × (calibrated hw.gyro_y raw ≡ none)
      × (calibrated hw.gyro_z raw ≡ none)
      × (calibrated hw.accel_x raw ≡ none)
      × (calibrated hw.accel_y raw ≡ none)
      × (calibrated hw.accel_z raw ≡ none)
unfolding get_controller_calibration_data
refused-none none raw = λ h. let u = uncalibrated raw in (u, u, u, u, u, u)
refused-none (some r) raw =
    if_rule P (r.report_id == 5) _ _ (λ _ h. cc)
      (λ _ h. let u = uncalibrated raw in (u, u, u, u, u, u))
  where
    P : Hardware × Bool → Type 0
    P (hw, ok) =
        ok ≡ false
        → (calibrated hw.gyro_x raw ≡ none)
          × (calibrated hw.gyro_y raw ≡ none)
          × (calibrated hw.gyro_z raw ≡ none)
          × (calibrated hw.accel_x raw ≡ none)
          × (calibrated hw.accel_y raw ≡ none)
          × (calibrated hw.accel_z raw ≡ none)
