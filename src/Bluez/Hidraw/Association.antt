-- ===== src/Bluez/Hidraw/Association.antt =====
-- Which hidraw device a key stands for.
use sdbus_cpp_examples.Prelude.{
  ◌≡◌, ◌⊎◌, inl, inr, Bool, true, none, some, List, [], ◌∷◌, if_rule, All-In, All-at, In, is_empty,
  Option-cases,
}
use sdbus_cpp_examples.Prelude.Text.{Text, text}
use sdbus_cpp_examples.Prelude.Map.{
  lookup, has_key, Entries, lookup-Entries, lookup-In, has_key-lookup, text_key,
}
use sdbus_cpp_examples.Bluez.Hidraw.{create_device_key_from_serial_number}
use sdbus_cpp_examples.Bluez.Hidraw.Paths.{
  AreSiblings, compare_subsystem_device_paths-AreSiblings, siblings-compare_subsystem_device_paths,
}
use sdbus_cpp_examples.Bluez.Hidraw.Listed.{
  IsDevice, Succeeds, get_udev_properties-Listed, get_udev_properties-lookup,
}
use sdbus_cpp_examples.Bluez.Hidraw.Devices.{
  Udev, Properties, get_udev_properties, get_hidraw_devices,
}
use sdbus_cpp_examples.Bluez.Hidraw.Rounds.{Associated, associate_all-Sound, associate_all-adds}

-- The hidraw device `dev_name` belongs to the serial number behind `key`: libudev lists an input
-- device with the properties asked for and that number, and a hidraw device with that name, and their
-- paths lie under one device.
abbrev pub Belongs : Udev → List (Text × Text) → Text → Text → Type 0
Belongs udev match_params key dev_name =
    (input_path : Text) × (input : Properties) × (hidraw_path : Text) × (hidraw : Properties)
    × (serial : Text) × IsDevice udev (text "input") match_params input_path input
    × IsDevice udev (text "hidraw") [] hidraw_path hidraw
    × AreSiblings input_path hidraw_path
    × (lookup (text "UNIQ") input ≡ some serial)
    × (key ≡ create_device_key_from_serial_number serial)
    × (lookup (text "DEVNAME") hidraw ≡ some dev_name)

some_entry : {A : Type 0} (xs : List A) (x : A) → In xs x → is_empty xs ≡ true → ⊥
some_entry [] x (i, e) h = cc
some_entry (y ∷ xs) x (i, e) h = cc

module _ (udev : Udev) (match_params : List (Text × Text)) (key : Text) where
  lookup-Belongs :
      (dev_name : Text)
      → lookup key (get_hidraw_devices udev match_params).0 ≡ some dev_name
      → Belongs udev match_params key dev_name
  unfolding get_hidraw_devices
  lookup-Belongs dev_name e =
      let inputs = get_udev_properties udev (text "input") match_params in
      let hidraws = get_udev_properties udev (text "hidraw") [] in
      let (input, hidraw, serial, i, h, c, u, k, d) =
        lookup-Entries (Associated inputs hidraws) key dev_name _
          (if_rule (λ (r : List (Text × Text) × Bool). Entries (Associated inputs hidraws) r.0)
            (is_empty inputs) _ _ (λ _. tt)
            (λ _. associate_all-Sound inputs hidraws inputs [] (All-In inputs) tt))
          e in
      (
        input.0,
        input.1,
        hidraw.0,
        hidraw.1,
        serial,
        All-at _ inputs input (get_udev_properties-Listed udev (text "input") match_params) i,
        All-at _ hidraws hidraw (get_udev_properties-Listed udev (text "hidraw") []) h,
        compare_subsystem_device_paths-AreSiblings input.0 hidraw.0 c,
        u,
        k,
        d,
      )

  get_hidraw_devices-has_key :
      (dev_name : Text)
      → Succeeds udev (text "input") match_params
      → Succeeds udev (text "hidraw") []
      → Belongs udev match_params key dev_name
      → has_key key (get_hidraw_devices udev match_params).0 ≡ true
  unfolding get_hidraw_devices
  get_hidraw_devices-has_key dev_name ok ok'
        (input_path, input, hidraw_path, hidraw, serial, i, h, siblings, u, k, d) =
      let inputs = get_udev_properties udev (text "input") match_params in
      let hidraws = get_udev_properties udev (text "hidraw") [] in
      let c = siblings-compare_subsystem_device_paths input_path hidraw_path siblings in
      let listed =
        lookup-In input_path input inputs
          (get_udev_properties-lookup udev (text "input") match_params input_path input i ok) in
      let listed' =
        lookup-In hidraw_path hidraw hidraws
          (get_udev_properties-lookup udev (text "hidraw") [] hidraw_path hidraw h ok') in
      if_rule (λ (r : List (Text × Text) × Bool). has_key key r.0 ≡ true) (is_empty inputs) _ _
        (λ e. absurd (some_entry inputs (input_path, input) listed e))
        (λ _.
          associate_all-adds [] [] key (input_path, input) (hidraw_path, hidraw) serial dev_name c u
            k d inputs hidraws listed.0 [] listed.1 listed')

  -- If libudev can enumerate the input and the hidraw devices: after get_hidraw_devices there is under
  -- a key the name of a hidraw device that belongs to the key, or there is none, and then no hidraw
  -- device belongs to it. One belongs to it if an input device that libudev lists has every property
  -- that is asked for, and as UNIQ the serial number that the key is made of, and the paths of the two
  -- are `/sys/devices/`, a common part, and then the first `/input` and the first `/hidraw`.
  pub get_hidraw_devices-Belongs :
      Succeeds udev (text "input") match_params
      → Succeeds udev (text "hidraw") []
      → ((dev_name : Text) × (lookup key (get_hidraw_devices udev match_params).0 ≡ some dev_name)
          × Belongs udev match_params key dev_name)
        ⊎ ((lookup key (get_hidraw_devices udev match_params).0 ≡ none)
            × ((dev_name : Text) → ¬ (Belongs udev match_params key dev_name)))
  get_hidraw_devices-Belongs ok ok' =
      elim (Option-cases (lookup key (get_hidraw_devices udev match_params).0)) [
        | inl e ↦ inr (
          e,
          λ dev_name b.
              let there = get_hidraw_devices-has_key dev_name ok ok' b in
              let gone = has_key-lookup key (get_hidraw_devices udev match_params).0 e in absurd cc,
        )
        | inr (dev_name, e) ↦ inl (dev_name, e, lookup-Belongs dev_name e)
      ]
