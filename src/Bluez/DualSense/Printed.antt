-- ===== src/Bluez/DualSense/Printed.antt =====
-- src/bluez/ps5_dual_sense/input_reader.cc: what a reader logs of a state and of its calibration, a
-- text for each LOG_INFO. `none` is a calibration that C++ leaves undefined.
pub mod Uncalibrated
use Prim.Native.String.{String}
use sdbus_cpp_examples.Prelude.{ℕ, Option, none, some, List, [], ◌∷◌, ◌++◌, map, bind}
use sdbus_cpp_examples.Prelude.Text.{Text, text}
use sdbus_cpp_examples.Prelude.Int.{ℤ}
use sdbus_cpp_examples.Prelude.Decimal.{decimal, decimal_ℤ}
use sdbus_cpp_examples.Bluez.DualSense.{CalibrationData, Hardware, calibrated}
use sdbus_cpp_examples.Bluez.DualSense.Input.{State, Finger}
use sdbus_cpp_examples.Bluez.DualSense.Simple.{SimpleState}
use sdbus_cpp_examples.Bluez.DualSense.Names.{dpad_to_string, power_state_to_string}

abbrev pub labelled : String → Text → Text
labelled label value = b'\t' ∷ text label ++ (text ": " ++ value)

-- Values with a comma between them.
abbrev pub listed : List Text → Text
listed [] = []
listed (t ∷ []) = t
listed (t ∷ u ∷ ts) = t ++ (text ", " ++ listed (u ∷ ts))

-- PrintCalibrationData.
unfoldable pub axis_text : String → CalibrationData → Text
axis_text sensor axis =
    b'\t' ∷ text sensor
    ++ (decimal axis.abs_code
        ++ (text ": bias: "
            ++ (decimal_ℤ axis.bias
                ++ (text ", sens_numer: "
                    ++ (decimal_ℤ axis.sens_numer
                        ++ (text ", sens_denom: " ++ decimal_ℤ axis.sens_denom))))))

unfoldable pub print_calibration_data : Hardware → List Text
print_calibration_data hw =
    text "HW Calibration Data"
      ∷ map (axis_text "Accel ") (hw.accel_x ∷ hw.accel_y ∷ hw.accel_z ∷ [])
    ++ map (axis_text "Gyro ") (hw.gyro_x ∷ hw.gyro_y ∷ hw.gyro_z ∷ [])

abbrev pub touch_text : ℕ → Finger → Text
touch_text timestamp f =
    text "timestamp: "
    ++ (decimal timestamp
        ++ (text ", index: "
            ++ (decimal f.index
                ++ (text ", X: "
                    ++ (decimal f.finger_x
                        ++ (text ", Y: "
                            ++ (decimal f.finger_y
                                ++ (text ", NotTouching: " ++ decimal f.not_touching))))))))

-- Three readings, each with the calibration of its axis.
abbrev pub Readings : Type 0
Readings = ℤ × ℤ × ℤ

unfoldable pub calibrated_three :
    CalibrationData → CalibrationData → CalibrationData → Readings → Option Readings
calibrated_three a b c (x, y, z) =
    bind (calibrated a x) λ i. bind (calibrated b y) λ j. bind (calibrated c z) λ k. some (i, j, k)

abbrev pub readings_text : String → Readings → Text
readings_text label (x, y, z) =
    labelled label (listed (decimal_ℤ x ∷ decimal_ℤ y ∷ decimal_ℤ z ∷ []))

abbrev pub angular_velocity : State → Readings
angular_velocity s = (s.angular_velocity_x, s.angular_velocity_y, s.angular_velocity_z)

abbrev pub acceleration : State → Readings
acceleration s = (s.accelerometer_x, s.accelerometer_y, s.accelerometer_z)

-- The lines up to the raw values of the gyroscope, and those behind the values of the sensors.
unfoldable pub controls_text : State → List Text
controls_text s =
    text "Controller State (USB)"
    ∷ labelled "LeftStick" (listed (decimal s.left_stick_x ∷ decimal s.left_stick_y ∷ []))
    ∷ labelled "RightStick" (listed (decimal s.right_stick_x ∷ decimal s.right_stick_y ∷ []))
    ∷ labelled "DPad" (dpad_to_string s.dpad)
    ∷ labelled "ButtonSquare" (decimal s.button_square)
    ∷ labelled "ButtonCross" (decimal s.button_cross)
    ∷ labelled "ButtonCircle" (decimal s.button_circle)
    ∷ labelled "ButtonTriangle" (decimal s.button_triangle)
    ∷ labelled "ButtonL1" (decimal s.button_l1)
    ∷ labelled "ButtonR1" (decimal s.button_r1)
    ∷ labelled "ButtonL2" (decimal s.button_l2)
    ∷ labelled "ButtonR2" (decimal s.button_r2)
    ∷ labelled "ButtonCreate" (decimal s.button_create)
    ∷ labelled "ButtonOptions" (decimal s.button_options)
    ∷ labelled "ButtonL3" (decimal s.button_l3)
    ∷ labelled "ButtonR3" (decimal s.button_r3)
    ∷ labelled "ButtonHome" (decimal s.button_home)
    ∷ labelled "ButtonPad" (decimal s.button_pad)
    ∷ labelled "ButtonMute" (decimal s.button_mute)
    ∷ labelled "ButtonLeftFunction" (decimal s.button_left_function)
    ∷ labelled "ButtonRightFunction" (decimal s.button_right_function)
    ∷ labelled "ButtonLeftPaddle" (decimal s.button_left_paddle)
    ∷ labelled "ButtonRightPaddle" (decimal s.button_right_paddle)
    ∷ labelled "TimeStamp" (decimal s.time_stamp)
    ∷ readings_text "AngularVelocity (Raw)" (angular_velocity s)
    ∷ []

unfoldable pub status_text : State → List Text
status_text s =
    labelled "SensorTimestamp" (decimal s.sensor_timestamp)
    ∷ labelled "Temperature" (decimal_ℤ s.temperature)
    ∷ labelled "TouchData" (touch_text s.touch_timestamp s.finger_0)
    ∷ labelled "TouchData" (touch_text s.touch_timestamp s.finger_1)
    ∷ labelled "TriggerRightStopLocation" (decimal s.trigger_right_stop_location)
    ∷ labelled "TriggerRightStatus" (decimal s.trigger_right_status)
    ∷ labelled "TriggerLeftStopLocation" (decimal s.trigger_left_stop_location)
    ∷ labelled "TriggerLeftStatus" (decimal s.trigger_left_status)
    ∷ labelled "TriggerRightEffect" (decimal s.trigger_right_effect)
    ∷ labelled "TriggerLeftEffect" (decimal s.trigger_left_effect)
    ∷ labelled "PowerPercent" (decimal s.power_percent)
    ∷ labelled "PowerState" (power_state_to_string s.power_state)
    ∷ labelled "PluggedHeadphones" (decimal s.plugged_headphones)
    ∷ labelled "PluggedMic" (decimal s.plugged_mic)
    ∷ labelled "MicMuted" (decimal s.mic_muted)
    ∷ labelled "PluggedUsbData" (decimal s.plugged_usb_data)
    ∷ labelled "PluggedUsbPower" (decimal s.plugged_usb_power)
    ∷ labelled "PluggedExternalMic" (decimal s.plugged_external_mic)
    ∷ labelled "HapticLowPassFilter" (decimal s.haptic_low_pass_filter)
    ∷ []

unfoldable pub sensors_text : State → Readings → Readings → List Text
sensors_text s gyro acc =
    readings_text "AngularVelocity (Cal)" gyro
    ∷ readings_text "Accelerometer (Raw)" (acceleration s)
    ∷ readings_text "Accelerometer (Cal)" acc
    ∷ []

-- PrintControllerStateUsb.
unfoldable pub print_controller_state_usb : State → Hardware → Option (List Text)
print_controller_state_usb s hw =
    bind (calibrated_three hw.gyro_x hw.gyro_y hw.gyro_z (angular_velocity s)) λ gyro.
      bind (calibrated_three hw.accel_x hw.accel_y hw.accel_z (acceleration s))
        λ acc. some (controls_text s ++ (sensors_text s gyro acc ++ status_text s))

-- PrintControllerStateBt.
unfoldable pub print_controller_state_bt : SimpleState → List Text
print_controller_state_bt s =
    text "Controller State (BT)"
    ∷ labelled "LeftStick" (listed (decimal s.left_stick_x ∷ decimal s.left_stick_y ∷ []))
    ∷ labelled "RightStick" (listed (decimal s.right_stick_x ∷ decimal s.right_stick_y ∷ []))
    ∷ labelled "DPad" (dpad_to_string s.dpad)
    ∷ labelled "ButtonSquare" (decimal s.button_square)
    ∷ labelled "ButtonCross" (decimal s.button_cross)
    ∷ labelled "ButtonCircle" (decimal s.button_circle)
    ∷ labelled "ButtonTriangle" (decimal s.button_triangle)
    ∷ labelled "ButtonL1" (decimal s.button_l1)
    ∷ labelled "ButtonR1" (decimal s.button_r1)
    ∷ labelled "ButtonL2" (decimal s.button_l2)
    ∷ labelled "ButtonR2" (decimal s.button_r2)
    ∷ labelled "ButtonShare" (decimal s.button_share)
    ∷ labelled "ButtonOptions" (decimal s.button_options)
    ∷ labelled "ButtonL3" (decimal s.button_l3)
    ∷ labelled "ButtonR3" (decimal s.button_r3)
    ∷ labelled "ButtonHome" (decimal s.button_home)
    ∷ labelled "ButtonPad" (decimal s.button_pad)
    ∷ labelled "Counter" (decimal s.counter)
    ∷ labelled "TriggerLeft" (decimal s.trigger_left)
    ∷ labelled "TriggerRight" (decimal s.trigger_right)
    ∷ []
