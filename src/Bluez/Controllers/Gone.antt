-- ===== src/Bluez/Controllers/Gone.antt =====
-- What onInterfacesRemoved leaves in the maps.
use sdbus_cpp_examples.Prelude.{
  ◌≡◌, refl, sym, subst, Bool, true, false, ◌&&◌, ◌||◌, Option, none, some, List, [], ◌∷◌,
  if◌then◌else◌, if_rule, arith,
}
use sdbus_cpp_examples.Prelude.Text.{Text, text, text_eq, text_eq_iff}
use sdbus_cpp_examples.Prelude.Map.{lookup, text_key, lookup-remove}
use sdbus_cpp_examples.Bluez.Device1.{Properties}
use sdbus_cpp_examples.Bluez.Controllers.{Model, Controller}
use sdbus_cpp_examples.Bluez.Controllers.Removing.{
  remove_device, remove_interface, on_interfaces_removed,
}

abbrev pub listed : Text → List Text → Bool
listed name [] = false
listed name (i ∷ interfaces) = text_eq i name || listed name interfaces

-- The entry under `j` of a map, if an object at `path` with the interface `name` goes.
abbrev pub left_over {ℓ} :
    {V : Type ℓ} → Text → Text → Text → List Text → List (Text × V) → Option V
left_over name path j interfaces m =
    if listed name interfaces && text_eq path j then none else lookup j m

remove_device-lookup :
    (model : Model) (path j : Text) (found : Option Properties) (c : Controller)
    → lookup path c.devices ≡ found
    → lookup j (remove_device model path found c).devices
      ≡ (if text_eq path j then none else lookup j c.devices)
unfolding remove_device
remove_device-lookup model path j none c e =
    if_rule (λ (o : Option Properties). lookup j c.devices ≡ o) (text_eq path j) _ _
      (λ same. rw ((text_eq_iff path j).0 same) at e) (λ _. refl)
remove_device-lookup model path j (some props) c e = lookup-remove path j c.devices

remove_device-others :
    (model : Model) (path : Text) (found : Option Properties) (c : Controller)
    → ((remove_device model path found c).adapters ≡ c.adapters)
      × ((remove_device model path found c).inputs ≡ c.inputs)
unfolding remove_device
remove_device-others model path none c = (refl, refl)
remove_device-others model path (some props) c = (refl, refl)

text_eq_apart : (i a b : Text) → text_eq a b ≡ false → text_eq i a ≡ true → text_eq i b ≡ false
text_eq_apart i a b n e = subst (λ x. text_eq x b ≡ false) (sym ((text_eq_iff i a).0 e)) n

module _ (model : Model) (path j : Text) where
  abbrev Left : Text → Bool → Bool → Bool → Controller → Controller → Type 0
  Left i a d n c c' =
      (lookup j c'.adapters ≡ (if a && text_eq path j then none else lookup j c.adapters))
      × (lookup j c'.devices ≡ (if d && text_eq path j then none else lookup j c.devices))
      × (lookup j c'.inputs ≡ (if n && text_eq path j then none else lookup j c.inputs))

  remove_interface-lookup :
      (i : Text) (c : Controller)
      → Left i
          (text_eq i (text "org.bluez.Adapter1"))
          (text_eq i (text "org.bluez.Device1"))
          (text_eq i (text "org.bluez.Input1"))
          c
          (remove_interface model path i c)
  unfolding remove_interface
  remove_interface-lookup i c =
      if_rule P (text_eq i (text "org.bluez.Adapter1")) _ _
        (λ a. ground (
          arith,
          lookup-remove path j c.adapters,
          text_eq_apart i (text "org.bluez.Adapter1") (text "org.bluez.Device1") refl a,
          text_eq_apart i (text "org.bluez.Adapter1") (text "org.bluez.Input1") refl a,
        ))
        (λ a.
          if_rule P (text_eq i (text "org.bluez.Device1")) _ _
            (λ d. ground (
              arith,
              remove_device-lookup model path j (lookup path c.devices) c refl,
              remove_device-others model path (lookup path c.devices) c,
              text_eq_apart i (text "org.bluez.Device1") (text "org.bluez.Input1") refl d,
            ))
            (λ d.
              if_rule P (text_eq i (text "org.bluez.Input1")) _ _
                (λ n. ground (arith, lookup-remove path j c.inputs)) (λ n. ground arith)))
    where
      P : Controller → Type 0
      P c' =
          Left i (text_eq i (text "org.bluez.Adapter1")) (text_eq i (text "org.bluez.Device1"))
            (text_eq i (text "org.bluez.Input1")) c c'

  -- After onInterfacesRemoved of an object, for the adapters, the devices and the inputs: its entry
  -- is gone if the interface is among those removed, and every other entry is what it was.
  pub on_interfaces_removed-lookup :
      (interfaces : List Text) (c : Controller)
      → let c' = on_interfaces_removed model path interfaces c in
        (lookup j c'.adapters ≡ left_over (text "org.bluez.Adapter1") path j interfaces c.adapters)
        × (lookup j c'.devices ≡ left_over (text "org.bluez.Device1") path j interfaces c.devices)
        × (lookup j c'.inputs ≡ left_over (text "org.bluez.Input1") path j interfaces c.inputs)
  unfolding on_interfaces_removed
  on_interfaces_removed-lookup [] c = (refl, refl, refl)
  on_interfaces_removed-lookup (i ∷ interfaces) c =
      let later = on_interfaces_removed-lookup interfaces (remove_interface model path i c) in
      let now = remove_interface-lookup i c in ground (arith, later, now)
