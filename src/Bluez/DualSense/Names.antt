-- ===== src/Bluez/DualSense/Names.antt =====
-- src/bluez/ps5_dual_sense/dual_sense_0ce6.h and input_reader.cc: the enumerations of the reports
-- and their names. A bit-field may hold a value that is no enumerator, so a value is a number.
use sdbus_cpp_examples.Prelude.{ℕ, List, [], ◌∷◌, ◌==◌, if◌then◌else◌}
use sdbus_cpp_examples.Prelude.Text.{Text, text}

-- The first name whose value is the one given, as the cases of a switch; else the default's.
abbrev pub name_of : List (ℕ × Text) → Text → ℕ → Text
name_of [] otherwise value = otherwise
name_of ((v, name) ∷ names) otherwise value =
    if value == v then name else name_of names otherwise value

-- Direction.
abbrev pub directions : List (ℕ × Text)
directions =
    (0, text "North")
    ∷ (1, text "NorthEast")
    ∷ (2, text "East")
    ∷ (3, text "SouthEast")
    ∷ (4, text "South")
    ∷ (5, text "SouthWest")
    ∷ (6, text "West")
    ∷ (7, text "NorthWest")
    ∷ []

unfoldable pub dpad_to_string : ℕ → Text
dpad_to_string value = name_of directions (text "None") value

-- PowerState.
abbrev pub power_states : List (ℕ × Text)
power_states =
    (0, text "Discharging")
    ∷ (1, text "Charging")
    ∷ (2, text "Complete")
    ∷ (10, text "AbnormalVoltage")
    ∷ (11, text "AbnormalTemperature")
    ∷ (15, text "ChargingError")
    ∷ []

unfoldable pub power_state_to_string : ℕ → Text
power_state_to_string value = name_of power_states (text "Unknown") value

-- MuteLight.
abbrev pub mute_lights : List (ℕ × Text)
mute_lights =
    (0, text "Off")
    ∷ (1, text "On")
    ∷ (2, text "Breathing")
    ∷ (3, text "DoNothing")
    ∷ (4, text "NoAction4")
    ∷ (5, text "NoAction5")
    ∷ (6, text "NoAction6")
    ∷ (7, text "NoAction7")
    ∷ []

unfoldable pub mute_light_to_string : ℕ → Text
mute_light_to_string value = name_of mute_lights (text "Unknown") value

-- LightBrightness.
abbrev pub light_brightnesses : List (ℕ × Text)
light_brightnesses =
    (0, text "Bright")
    ∷ (1, text "Mid")
    ∷ (2, text "Dim")
    ∷ (3, text "NoAction3")
    ∷ (4, text "NoAction4")
    ∷ (5, text "NoAction5")
    ∷ (6, text "NoAction6")
    ∷ (7, text "NoAction7")
    ∷ []

unfoldable pub light_brightness_to_string : ℕ → Text
light_brightness_to_string value = name_of light_brightnesses (text "Unknown") value

-- LightFadeAnimation.
abbrev pub light_fade_animations : List (ℕ × Text)
light_fade_animations = (0, text "Nothing") ∷ (1, text "FadeIn") ∷ (2, text "FadeOut") ∷ []

unfoldable pub light_fade_animation_to_string : ℕ → Text
light_fade_animation_to_string value = name_of light_fade_animations (text "Unknown") value
