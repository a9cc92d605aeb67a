-- ===== src/Examples/Signals.antt =====
-- The reports of an Xbox controller and of a Horipad, and the units that systemd announces.
use sdbus_cpp_examples.Prelude.{◌≡◌, inl, inr, refl, false, List, [], ◌∷◌, arith}
use sdbus_cpp_examples.Prelude.Text.{text}
use sdbus_cpp_examples.Bluez.DualSense.Input.{read_bytes}
use sdbus_cpp_examples.Bluez.Xbox
use sdbus_cpp_examples.Bluez.Xbox.{Report1, prints_report_1}
use sdbus_cpp_examples.Bluez.Xbox.Reports.{IsWellFormed, encode_report_1, dispatch-encode_report_1}
use sdbus_cpp_examples.Bluez.Horipad
use sdbus_cpp_examples.Bluez.Horipad.{Report7}
use sdbus_cpp_examples.Bluez.Horipad.Reports
use sdbus_cpp_examples.Bluez.Horipad.Reports.{encode_report_7, dispatch-encode_report_7}
use sdbus_cpp_examples.Services.Systemd1.{Signal, unit_new, unit_removed, has_unit, run}
use sdbus_cpp_examples.Services.Systemd1.Units.{noted, run_refines_active}

abbrev pressed : Report1
pressed = record {
  pointer_x = 32768;
  pointer_y = 40000;
  pointer_z = 0;
  pointer_rz = 65535;
  brake = 512;
  accelerator = 1023;
  hat_switch = 3;
  button_1 = 1;
  button_2 = 0;
  button_3 = 0;
  button_4 = 1;
  button_5 = 0;
  button_6 = 0;
  button_7 = 1;
  button_8 = 0;
  button_9 = 0;
  button_10 = 0;
  button_11 = 0;
  button_12 = 1;
  button_13 = 0;
  button_14 = 1;
  button_15 = 0;
  ac_back = 1;
}

pressed-IsWellFormed : IsWellFormed pressed
pressed-IsWellFormed = record {
  pointer_x_range = omega arith;
  pointer_y_range = omega arith;
  pointer_z_range = omega arith;
  pointer_rz_range = omega arith;
  brake_range = omega arith;
  accelerator_range = omega arith;
  hat_switch_range = omega arith;
  button_1_range = omega arith;
  button_2_range = omega arith;
  button_3_range = omega arith;
  button_4_range = omega arith;
  button_5_range = omega arith;
  button_6_range = omega arith;
  button_7_range = omega arith;
  button_8_range = omega arith;
  button_9_range = omega arith;
  button_10_range = omega arith;
  button_11_range = omega arith;
  button_12_range = omega arith;
  button_13_range = omega arith;
  button_14_range = omega arith;
  button_15_range = omega arith;
  ac_back_range = omega arith;
}

dispatch-encode_report_1_example :
    Xbox.dispatch 765 1 (read_bytes (encode_report_1 pressed)) ≡ prints_report_1 pressed
dispatch-encode_report_1_example = dispatch-encode_report_1 pressed 1 pressed-IsWellFormed refl

abbrev held : Report7
held = record {
  gamepad_x = 128;
  gamepad_y = 127;
  gamepad_z = 0;
  gamepad_rz = 255;
  hat_switch = 8;
  button_1 = 1;
  button_2 = 0;
  button_3 = 0;
  button_4 = 0;
  button_5 = 0;
  button_6 = 1;
  button_7 = 0;
  button_8 = 0;
  button_9 = 0;
  button_10 = 0;
  button_11 = 0;
  button_12 = 0;
  button_13 = 0;
  button_14 = 0;
  button_15 = 0;
  button_16 = 0;
  button_17 = 0;
  button_18 = 0;
  button_19 = 0;
  button_20 = 1;
  accelerator = 200;
  brake = 0;
}

held-IsWellFormed : Reports.IsWellFormed held
held-IsWellFormed = record {
  hat_switch_range = omega arith;
  button_1_range = omega arith;
  button_2_range = omega arith;
  button_3_range = omega arith;
  button_4_range = omega arith;
  button_5_range = omega arith;
  button_6_range = omega arith;
  button_7_range = omega arith;
  button_8_range = omega arith;
  button_9_range = omega arith;
  button_10_range = omega arith;
  button_11_range = omega arith;
  button_12_range = omega arith;
  button_13_range = omega arith;
  button_14_range = omega arith;
  button_15_range = omega arith;
  button_16_range = omega arith;
  button_17_range = omega arith;
  button_18_range = omega arith;
  button_19_range = omega arith;
  button_20_range = omega arith;
}

dispatch-encode_report_7_example :
    (Horipad.dispatch 406 1 (read_bytes (encode_report_7 held (1 ∷ 2 ∷ [])))
      ≡ Horipad.prints_report_7 held)
    × (Horipad.dispatch 406 1 (read_bytes (18 ∷ 1 ∷ 2 ∷ [])) ≡ Horipad.unknown_report 18)
dispatch-encode_report_7_example =
    dispatch-encode_report_7 held 406 1 18 (1 ∷ 2 ∷ []) (inr refl) refl held-IsWellFormed
      (inr (inl refl))

abbrev signals : List Signal
signals =
    unit_new (text "ssh.service")
    ∷ unit_new (text "ssh.service")
    ∷ unit_new (text "cron.service")
    ∷ unit_removed (text "ssh.service")
    ∷ []

run_refines_active_example :
    has_unit (text "cron.service") (run signals [])
    ≡ noted signals (λ j. false) (text "cron.service")
run_refines_active_example = run_refines_active signals (text "cron.service") (omega arith)
