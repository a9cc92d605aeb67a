-- ===== src/Bluez/Hidraw/Rounds.antt =====
-- What the loops that associate the devices store.
use mathlib.Core.Option.{some-injective}
use sdbus_cpp_examples.Prelude.{
  ℕ, zero, suc, ◌≡◌, refl, sym, subst, ◌∙◌, true, Option, none, some, List, [], ◌∷◌, if_rule, All,
  All-In, In, arith, get_elem?,
}
use sdbus_cpp_examples.Prelude.Text.{Text, text, text_eq_iff}
use sdbus_cpp_examples.Prelude.Map.{
  lookup, has_key, Entries, insert-Entries, has_key-insert, text_key,
}
use sdbus_cpp_examples.Bluez.Hidraw.{
  compare_subsystem_device_paths, create_device_key_from_serial_number,
}
use sdbus_cpp_examples.Bluez.Hidraw.Devices.{
  Properties, associate_found, associate, associate_each, associate_all,
}

-- An input device and a hidraw device, among those given, of which the loops store `dev_name` under
-- `key`.
abbrev pub Associated : List (Text × Properties) → List (Text × Properties) → Text → Text → Type 0
Associated inputs hidraws key dev_name =
    (input : Text × Properties) × (hidraw : Text × Properties) × (serial : Text) × In inputs input
    × In hidraws hidraw
    × (compare_subsystem_device_paths input.0 hidraw.0 ≡ true)
    × (lookup (text "UNIQ") input.1 ≡ some serial)
    × (key ≡ create_device_key_from_serial_number serial)
    × (lookup (text "DEVNAME") hidraw.1 ≡ some dev_name)

module _ (inputs hidraws : List (Text × Properties)) where
  abbrev Sound : List (Text × Text) → Type 0
  Sound devices = Entries (Associated inputs hidraws) devices

  associate_found-Sound :
      (input hidraw : Text × Properties) (o p : Option Text) (devices : List (Text × Text))
      → lookup (text "DEVNAME") hidraw.1 ≡ o
      → lookup (text "UNIQ") input.1 ≡ p
      → In inputs input
      → In hidraws hidraw
      → compare_subsystem_device_paths input.0 hidraw.0 ≡ true
      → Sound devices
      → Sound (associate_found input.0 o p devices)
  unfolding associate_found
  associate_found-Sound input hidraw none p devices d u i h c s = s
  associate_found-Sound input hidraw (some name) none devices d u i h c s = s
  associate_found-Sound input hidraw (some name) (some serial) devices d u i h c s =
      insert-Entries (Associated inputs hidraws) (create_device_key_from_serial_number serial) name
        devices (input, hidraw, serial, i, h, c, u, refl, d) s

  associate-Sound :
      (input hidraw : Text × Properties) (devices : List (Text × Text))
      → In inputs input
      → In hidraws hidraw
      → Sound devices
      → Sound (associate input hidraw devices)
  unfolding associate
  associate-Sound input hidraw devices i h s =
      if_rule Sound (compare_subsystem_device_paths input.0 hidraw.0) _ _
        (λ c. associate_found-Sound input hidraw _ _ devices refl refl i h c s) (λ _. s)

  associate_each-Sound :
      (input : Text × Properties) (hs : List (Text × Properties)) (devices : List (Text × Text))
      → In inputs input
      → All (In hidraws) hs
      → Sound devices
      → Sound (associate_each input hs devices)
  unfolding associate_each
  associate_each-Sound input [] devices i hs s = s
  associate_each-Sound input (hidraw ∷ rest) devices i hs s =
      associate_each-Sound input rest (associate input hidraw devices) i hs.1
        (associate-Sound input hidraw devices i hs.0 s)

  pub associate_all-Sound :
      (is : List (Text × Properties)) (devices : List (Text × Text))
      → All (In inputs) is
      → Sound devices
      → Sound (associate_all is hidraws devices)
  unfolding associate_all
  associate_all-Sound [] devices is s = s
  associate_all-Sound (input ∷ rest) devices is s =
      associate_all-Sound rest (associate_each input hidraws devices) is.1
        (associate_each-Sound input hidraws devices is.0 (All-In hidraws) s)

  -- A round of the loops keeps the keys, and the round of two associated devices adds theirs.
  module _ (key : Text) where
    abbrev HasKey : List (Text × Text) → Type 0
    HasKey devices = has_key key devices ≡ true

    associate_found-keeps :
        (path : Text) (o p : Option Text) (devices : List (Text × Text))
        → HasKey devices
        → HasKey (associate_found path o p devices)
    unfolding associate_found
    associate_found-keeps path none p devices h = h
    associate_found-keeps path (some name) none devices h = h
    associate_found-keeps path (some name) (some serial) devices h =
        ground
          (arith, h, has_key-insert (create_device_key_from_serial_number serial) key name devices)

    associate-keeps :
        (input hidraw : Text × Properties) (devices : List (Text × Text))
        → HasKey devices
        → HasKey (associate input hidraw devices)
    unfolding associate
    associate-keeps input hidraw devices h =
        if_rule HasKey (compare_subsystem_device_paths input.0 hidraw.0) _ _
          (λ _. associate_found-keeps input.0 _ _ devices h) (λ _. h)

    associate_each-keeps :
        (input : Text × Properties) (hs : List (Text × Properties)) (devices : List (Text × Text))
        → HasKey devices
        → HasKey (associate_each input hs devices)
    unfolding associate_each
    associate_each-keeps input [] devices h = h
    associate_each-keeps input (hidraw ∷ hs) devices h =
        associate_each-keeps input hs _ (associate-keeps input hidraw devices h)

    associate_all-keeps :
        (is hs : List (Text × Properties)) (devices : List (Text × Text))
        → HasKey devices
        → HasKey (associate_all is hs devices)
    unfolding associate_all
    associate_all-keeps [] hs devices h = h
    associate_all-keeps (input ∷ is) hs devices h =
        associate_all-keeps is hs _ (associate_each-keeps input hs devices h)

    module _ (input hidraw : Text × Properties) (serial dev_name : Text)
        (c : compare_subsystem_device_paths input.0 hidraw.0 ≡ true)
        (u : lookup (text "UNIQ") input.1 ≡ some serial)
        (k : key ≡ create_device_key_from_serial_number serial)
        (d : lookup (text "DEVNAME") hidraw.1 ≡ some dev_name) where
      associate-adds : (devices : List (Text × Text)) → HasKey (associate input hidraw devices)
      unfolding associate associate_found
      associate-adds devices =
          rw (c, d, u)
            (has_key-insert (create_device_key_from_serial_number serial) key dev_name devices
              ∙ rw ((text_eq_iff _ _).1 (sym k)) refl)

      associate_each-adds :
          (hs : List (Text × Properties)) (i : ℕ) (devices : List (Text × Text))
          → get_elem? hs i ≡ some hidraw
          → HasKey (associate_each input hs devices)
      unfolding associate_each
      associate_each-adds [] i devices e = cc
      associate_each-adds (h ∷ hs) zero devices e = associate_each-keeps input hs _ (
          subst (λ x. HasKey (associate input x devices)) (sym (some-injective h hidraw e))
            (associate-adds devices))
      associate_each-adds (h ∷ hs) (suc i) devices e = associate_each-adds hs i _ e

      pub associate_all-adds :
          (is hs : List (Text × Properties)) (i : ℕ) (devices : List (Text × Text))
          → get_elem? is i ≡ some input
          → In hs hidraw
          → HasKey (associate_all is hs devices)
      unfolding associate_all
      associate_all-adds [] hs i devices e h = cc
      associate_all-adds (j ∷ is) hs zero devices e h = associate_all-keeps is hs _ (
          subst (λ x. HasKey (associate_each x hs devices)) (sym (some-injective j input e))
            (associate_each-adds hs h.0 devices h.1))
      associate_all-adds (j ∷ is) hs (suc i) devices e h = associate_all-adds is hs i _ e h
