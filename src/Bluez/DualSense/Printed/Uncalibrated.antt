-- ===== src/Bluez/DualSense/Printed/Uncalibrated.antt =====
-- What a reader without calibration makes of a state.
use sdbus_cpp_examples.Prelude.{◌≡◌, refl, false, Option, none}
use sdbus_cpp_examples.Bluez.DualSense.{Report, no_calibration, get_controller_calibration_data}
use sdbus_cpp_examples.Bluez.DualSense.Calibrated.{refused-none}
use sdbus_cpp_examples.Bluez.DualSense.Input.{State}
use sdbus_cpp_examples.Bluez.DualSense.Printed.{calibrated_three, print_controller_state_usb}

-- If the device refuses the calibration data, or answers with another report, then to print any
-- state, whatever it holds, divides by zero.
pub refused-print :
    (o : Option Report) (s : State)
    → (get_controller_calibration_data o no_calibration).1 ≡ false
    → print_controller_state_usb s (get_controller_calibration_data o no_calibration).0 ≡ none
unfolding print_controller_state_usb calibrated_three
refused-print o s h = rw ((refused-none o s.angular_velocity_x h).0) refl
