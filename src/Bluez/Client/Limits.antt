-- ===== src/Bluez/Client/Limits.antt =====
-- The maps of the client stay within src/utils/resource_limits.h.
use sdbus_cpp_examples.Prelude.{
  ℕ, ◌≤◌, Bool, true, false, Option, none, some, List, [], ◌∷◌, length, arith,
}
use sdbus_cpp_examples.Prelude.Text.{Text, text}
use sdbus_cpp_examples.Prelude.Map.{text_key, length-remove-le}
use sdbus_cpp_examples.Dbus.{Variants, get_property}
use sdbus_cpp_examples.ResourceLimits.{
  max_adapters, max_devices, max_gatt_services, max_gatt_characteristics, max_gatt_descriptors,
  max_battery_entries, max_input_entries, length-insert_guarded,
}
use sdbus_cpp_examples.Bluez.Device1.{no_properties, on_properties_changed}
use sdbus_cpp_examples.Bluez.Client.{
  Client, new_client, add_new, add_or_replace, add_named, object_if, device_if, add_interface,
  unless_thrown, on_interfaces_added, remove_interface, on_interfaces_removed,
}

-- Below, `Within limit m` bounds one map, and `AllWithin` all of them.
abbrev Within {ℓ} : {V : Type ℓ} → ℕ → List (Text × V) → Type 0
Within limit m = length m ≤ limit

abbrev pub AllWithin : Client → Type 0
AllWithin c =
    Within max_adapters c.adapters
    × Within max_devices c.devices
    × Within max_gatt_services c.gatt_services
    × Within max_gatt_characteristics c.gatt_characteristics
    × Within max_gatt_descriptors c.gatt_descriptors
    × Within max_battery_entries c.batteries
    × Within max_input_entries c.inputs

add_new-Within {ℓ} :
    {V : Type ℓ} (limit : ℕ) (path : Text) (o : Option V) (m : List (Text × V))
    → Within limit m
    → Within limit (add_new limit path o m).0
unfolding add_new
add_new-Within limit path none m h = ground arith
add_new-Within limit path (some object) m h =
    ground (arith, length-insert_guarded limit path object m)

add_named-Within {ℓ} :
    {V : Type ℓ} (name : Option Text) (limit : ℕ) (path : Text) (o : Option V) (m : List (Text × V))
    → Within limit m
    → Within limit (add_named name limit path o m).0
unfolding add_named add_or_replace
add_named-Within none limit path o m h = h
add_named-Within (some name) limit path none m h = ground arith
add_named-Within (some name) limit path (some object) m h =
    ground (arith, length-insert_guarded limit path object m)

module _ (v : Variants) (makes : Text → Text → Bool) where
  open v use {Variant, get_object_path}

  add_interface-AllWithin :
      (path interface : Text) (properties : List (Text × Variant)) (c : Client)
      → AllWithin c
      → AllWithin (add_interface v makes path interface properties c).0
  unfolding add_interface
  add_interface-AllWithin path interface properties c h =
      let object = object_if (makes interface path) in
      ground (
        arith,
        add_new-Within max_adapters path object c.adapters,
        add_new-Within max_devices path
            (device_if (on_properties_changed v properties no_properties)) c.devices,
        add_new-Within max_gatt_services path object c.gatt_services,
        add_named-Within (get_property get_object_path properties (text "Service"))
            max_gatt_characteristics path object c.gatt_characteristics,
        add_named-Within (get_property get_object_path properties (text "Characteristic"))
            max_gatt_descriptors path object c.gatt_descriptors,
        add_new-Within max_battery_entries path object c.batteries,
        add_new-Within max_input_entries path object c.inputs,
      )

  unless_thrown-AllWithin :
      (r : Client × Bool) (k : Client → Client × Bool)
      → AllWithin r.0
      → ((c : Client) → AllWithin c → AllWithin (k c).0)
      → AllWithin (unless_thrown v makes r k).0
  unless_thrown-AllWithin (c, false) k h f = h
  unless_thrown-AllWithin (c, true) k h f = f c h

  on_interfaces_added-AllWithin :
      (path : Text) (interfaces : List (Text × List (Text × Variant))) (c : Client)
      → AllWithin c
      → AllWithin (on_interfaces_added v makes path interfaces c).0
  unfolding on_interfaces_added
  on_interfaces_added-AllWithin path [] c h = h
  on_interfaces_added-AllWithin path ((interface, properties) ∷ interfaces) c h =
      unless_thrown-AllWithin (add_interface v makes path interface properties c) _
        (add_interface-AllWithin path interface properties c h)
        (λ c' h'. on_interfaces_added-AllWithin path interfaces c' h')

remove_interface-AllWithin :
    (path interface : Text) (c : Client)
    → AllWithin c
    → AllWithin (remove_interface path interface c)
unfolding remove_interface
remove_interface-AllWithin path interface c h = ground (
  arith,
  length-remove-le path c.adapters,
  length-remove-le path c.devices,
  length-remove-le path c.gatt_services,
  length-remove-le path c.gatt_characteristics,
  length-remove-le path c.gatt_descriptors,
  length-remove-le path c.batteries,
  length-remove-le path c.inputs,
)

on_interfaces_removed-AllWithin :
    (path : Text) (interfaces : List Text) (c : Client)
    → AllWithin c
    → AllWithin (on_interfaces_removed path interfaces c)
unfolding on_interfaces_removed
on_interfaces_removed-AllWithin path [] c h = h
on_interfaces_removed-AllWithin path (interface ∷ interfaces) c h =
    on_interfaces_removed-AllWithin path interfaces (remove_interface path interface c)
      (remove_interface-AllWithin path interface c h)

-- The clients that a run can come to: what BlueZ announces and removes, in any order, with the
-- constructors of the objects throwing or not.
pub data Reaches (v : Variants) : Client → Type 0 where
  starts : Reaches v new_client
  adds :
      {c : Client} (makes : Text → Text → Bool) (path : Text)
      (interfaces : List (Text × List (Text × v.Variant)))
      → Reaches v c
      → Reaches v (on_interfaces_added v makes path interfaces c).0
  removes :
      {c : Client} (path : Text) (interfaces : List Text)
      → Reaches v c
      → Reaches v (on_interfaces_removed path interfaces c)

-- In every client that a run can come to, also after a constructor threw half way through an
-- announcement, each of the seven maps has at most as many entries as its limit allows.
pub Reaches-AllWithin : (v : Variants) (c : Client) → Reaches v c → AllWithin c
Reaches-AllWithin v c starts =
    (omega arith, omega arith, omega arith, omega arith, omega arith, omega arith, omega arith)
Reaches-AllWithin v c (adds {c = b} makes path interfaces r) =
    on_interfaces_added-AllWithin v makes path interfaces b (Reaches-AllWithin v b r)
Reaches-AllWithin v c (removes {c = b} path interfaces r) =
    on_interfaces_removed-AllWithin path interfaces b (Reaches-AllWithin v b r)
