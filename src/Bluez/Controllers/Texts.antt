-- ===== src/Bluez/Controllers/Texts.antt =====
-- What the readers of the Xbox and the Horipad controller log of a report, a text for each LOG_INFO:
-- PrintInputReport1 of src/bluez/xbox_controller/input_reader.cc and PrintInputReport7 of
-- src/bluez/horipad_steam/input_reader.cc.
use Prim.Native.String.{String}
use sdbus_cpp_examples.Prelude.{ℕ, List, [], ◌∷◌, ◌++◌}
use sdbus_cpp_examples.Prelude.Text.{Text, text}
use sdbus_cpp_examples.Prelude.Decimal.{decimal}
use sdbus_cpp_examples.Bluez.Xbox
use sdbus_cpp_examples.Bluez.Xbox.{Report1}
use sdbus_cpp_examples.Bluez.Horipad
use sdbus_cpp_examples.Bluez.Horipad.{Report7}

abbrev pub shown : String → ℕ → Text
shown label n = text label ++ (text ": " ++ decimal n)

-- `Stick L/R: [x,y] [z,rz] `.
abbrev pub sticks : ℕ → ℕ → ℕ → ℕ → Text
sticks x y z rz =
    text "Stick L/R: ["
    ++ (decimal x
        ++ b',' ∷ (decimal y ++ (text "] [" ++ (decimal z ++ b',' ∷ (decimal rz ++ text "] ")))))

abbrev pub two : String → ℕ → ℕ → Text
two label a b = text label ++ (text ": " ++ (decimal a ++ (text ", " ++ decimal b)))

unfoldable pub print_input_report_1 : Report1 → List Text
print_input_report_1 r =
    sticks r.pointer_x r.pointer_y r.pointer_z r.pointer_rz
    ∷ two "Trigger L/R" r.brake r.accelerator
    ∷ (text "D-PAD: " ++ Xbox.dpad_to_string r.hat_switch)
    ∷ shown "A" r.button_1
    ∷ shown "B" r.button_2
    ∷ shown "Button3" r.button_3
    ∷ shown "X" r.button_4
    ∷ shown "Y" r.button_5
    ∷ shown "Button6" r.button_6
    ∷ shown "Left Bumper" r.button_7
    ∷ shown "Right Bumper" r.button_8
    ∷ shown "Button9" r.button_9
    ∷ shown "Button10" r.button_10
    ∷ shown "Button11" r.button_11
    ∷ shown "Menu" r.button_12
    ∷ shown "Button13" r.button_13
    ∷ shown "Left Stick Btn" r.button_14
    ∷ shown "Right Stick Btn" r.button_15
    ∷ shown "Back" r.ac_back
    ∷ []

unfoldable pub print_input_report_7 : Report7 → List Text
print_input_report_7 r =
    sticks r.gamepad_x r.gamepad_y r.gamepad_z r.gamepad_rz
    ∷ two "L1/L2" r.brake r.accelerator
    ∷ (text "D-PAD: " ++ Horipad.dpad_to_string r.hat_switch)
    ∷ shown "A" r.button_1
    ∷ shown "B" r.button_2
    ∷ shown "Quick Access" r.button_3
    ∷ shown "X" r.button_4
    ∷ shown "Y" r.button_5
    ∷ shown "M1" r.button_6
    ∷ shown "L1" r.button_7
    ∷ shown "R1" r.button_8
    ∷ shown "L2" r.button_9
    ∷ shown "R2" r.button_10
    ∷ shown "View" r.button_11
    ∷ shown "Menu" r.button_12
    ∷ shown "Home" r.button_13
    ∷ shown "Left Stick Btn" r.button_14
    ∷ shown "Right Stick Btn" r.button_15
    ∷ shown "M2" r.button_16
    ∷ shown "Button 17" r.button_17
    ∷ shown "Button 18" r.button_18
    ∷ shown "L4" r.button_19
    ∷ shown "R4" r.button_20
    ∷ []
