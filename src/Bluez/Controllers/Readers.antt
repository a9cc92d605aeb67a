-- ===== src/Bluez/Controllers/Readers.antt =====
-- The reader of a controller and the loop, over all that can happen to a controller.
use sdbus_cpp_examples.Prelude.{
  subst, ℕ, ◌≡◌, refl, Bool, true, false, not, ◌||◌, Option, none, some, List, [], ◌∷◌, if_rule,
  length,
}
use sdbus_cpp_examples.Prelude.Text.{Text, text, text_eq}
use sdbus_cpp_examples.Prelude.Map.{lookup, has_key, text_key}
use sdbus_cpp_examples.Dbus.{Variants, get_property}
use sdbus_cpp_examples.ResourceLimits.{is_at_capacity, max_devices}
use sdbus_cpp_examples.EventLoop.{Loop}
use sdbus_cpp_examples.Bluez.Device1.{parse_modalias, Properties}
use sdbus_cpp_examples.Bluez.Hidraw.Devices.{Udev}
use sdbus_cpp_examples.Bluez.Controllers.{
  Model, Controller, new_controller, is_ours, Outside, hidraw_device_key, power_path, unless_thrown,
}
use sdbus_cpp_examples.Bluez.Controllers.Adding.{
  add_constructed, add_matching, add_device, add_interface, on_interfaces_added, add_objects,
  construct,
}
use sdbus_cpp_examples.Bluez.Controllers.Removing.{
  remove_device, remove_interface, on_interfaces_removed, find_hidraws, retire_reader,
  on_udev_event, change_device, device_changed,
}
use sdbus_cpp_examples.Bluez.Controllers.Events.{
  Event, added, removed, changed, udev_event, passes, step, steps,
}
use sdbus_cpp_examples.Bluez.Controllers.Keeping.{
  KeptAt, Kept, Done, retires-KeptAt, passes-KeptAt, add_adapter-Kept, add_input-Kept,
  add_upower-Kept, start_reader-Kept,
}

module _ (v : Variants) (model : Model) (o : Outside) where
  open v use {Variant, get_string}

  add_constructed-Kept :
      (path : Text) (made : Properties × Bool) (c : Controller)
      → Kept c
      → Kept (add_constructed v model o path made c).0
  unfolding add_constructed
  add_constructed-Kept path (props, false) c h = h
  add_constructed-Kept path (props, true) c h =
      add_upower-Kept o (power_path model props) _
        (start_reader-Kept o (hidraw_device_key model props) _ h)

  add_matching-Kept :
      (path : Text) (properties : List (Text × Variant)) (found : Option Text) (c : Controller)
      → Kept c
      → Kept (add_matching v model o path properties found c).0
  unfolding add_matching
  add_matching-Kept path properties none c h = h
  add_matching-Kept path properties (some mod_alias) c h =
      if_rule P (not (is_ours model (parse_modalias mod_alias))) _ _ (λ _. h)
        (λ _.
          if_rule P (has_key path c.devices) _ _ (λ _. h)
            (λ _.
              if_rule P (is_at_capacity (length c.devices) max_devices) _ _ (λ _. h)
                (λ _. add_constructed-Kept path _ c h)))
    where
      P : Controller × Bool → Type 0
      P r = Kept r.0

  add_device-Kept :
      (path : Text) (properties : List (Text × Variant)) (c : Controller)
      → Kept c
      → Kept (add_device v model o path properties c).0
  unfolding add_device
  add_device-Kept path properties c h =
      add_matching-Kept path properties (get_property get_string properties (text "Modalias")) c h

  add_interface-Kept :
      (path interface : Text) (properties : List (Text × Variant)) (c : Controller)
      → Kept c
      → Kept (add_interface v model o path interface properties c).0
  unfolding add_interface
  add_interface-Kept path interface properties c h =
      if_rule Done
        (text_eq interface (text "org.freedesktop.DBus.Properties")
          || text_eq interface (text "org.freedesktop.DBus.Introspectable"))
        _ _ (λ _. h)
        (λ _.
          if_rule Done (text_eq interface (text "org.bluez.Adapter1")) _ _
            (λ _. add_adapter-Kept o path c h)
            (λ _.
              if_rule Done (text_eq interface (text "org.bluez.Device1")) _ _
                (λ _. add_device-Kept path properties c h)
                (λ _.
                  if_rule Done (text_eq interface (text "org.bluez.Input1")) _ _
                    (λ _. add_input-Kept o path c h) (λ _. h))))

  unless_thrown-Kept :
      (r : Controller × Bool) (k : Controller → Controller × Bool)
      → Kept r.0
      → ((c : Controller) → Kept c → Kept (k c).0)
      → Kept (unless_thrown r k).0
  unless_thrown-Kept (c, false) k h f = h
  unless_thrown-Kept (c, true) k h f = f c h

  on_interfaces_added-Kept :
      (path : Text) (interfaces : List (Text × List (Text × Variant))) (c : Controller)
      → Kept c
      → Kept (on_interfaces_added v model o path interfaces c).0
  unfolding on_interfaces_added
  on_interfaces_added-Kept path [] c h = h
  on_interfaces_added-Kept path ((interface, properties) ∷ interfaces) c h =
      unless_thrown-Kept (add_interface v model o path interface properties c) _
        (add_interface-Kept path interface properties c h)
        (λ c' h'. on_interfaces_added-Kept path interfaces c' h')

  add_objects-Kept :
      (objects : List (Text × List (Text × List (Text × Variant)))) (c : Controller)
      → Kept c
      → Kept (add_objects v model o objects c).0
  unfolding add_objects
  add_objects-Kept [] c h = h
  add_objects-Kept ((object, interfaces) ∷ objects) c h =
      unless_thrown-Kept (on_interfaces_added v model o object interfaces c) _
        (on_interfaces_added-Kept object interfaces c h) (λ c' h'. add_objects-Kept objects c' h')

remove_device-Kept :
    (model : Model) (path : Text) (o : Option Properties) (c : Controller)
    → Kept c
    → Kept (remove_device model path o c)
unfolding remove_device
remove_device-Kept model path none c h = h
remove_device-Kept model path (some props) c h = h

remove_interface-Kept :
    (model : Model) (path interface : Text) (c : Controller)
    → Kept c
    → Kept (remove_interface model path interface c)
unfolding remove_interface
remove_interface-Kept model path interface c h =
    if_rule Kept (text_eq interface (text "org.bluez.Adapter1")) _ _ (λ _. h)
      (λ _.
        if_rule Kept (text_eq interface (text "org.bluez.Device1")) _ _
          (λ _. remove_device-Kept model path (lookup path c.devices) c h)
          (λ _. if_rule Kept (text_eq interface (text "org.bluez.Input1")) _ _ (λ _. h) (λ _. h)))

on_interfaces_removed-Kept :
    (model : Model) (path : Text) (interfaces : List Text) (c : Controller)
    → Kept c
    → Kept (on_interfaces_removed model path interfaces c)
unfolding on_interfaces_removed
on_interfaces_removed-Kept model path [] c h = h
on_interfaces_removed-Kept model path (interface ∷ interfaces) c h =
    on_interfaces_removed-Kept model path interfaces (remove_interface model path interface c)
      (remove_interface-Kept model path interface c h)

find_hidraws-Kept :
    (model : Model) (udev : Udev) (c : Controller) → Kept c → Kept (find_hidraws model udev c)
unfolding find_hidraws
find_hidraws-Kept model udev c h = h

retire_reader-Kept :
    (o : Option ℕ) (c : Controller) → c.input_reader ≡ o → Kept c → Kept (retire_reader o c)
unfolding retire_reader
retire_reader-Kept none c e h = h
retire_reader-Kept (some r) c e h =
    retires-KeptAt r c.loop c.next (subst (λ o. KeptAt o c.loop c.next) e h)

on_udev_event-Kept :
    (model : Model) (udev : Udev) (action sub_system : Text) (c : Controller)
    → Kept c
    → Kept (on_udev_event model udev action sub_system c)
unfolding on_udev_event
on_udev_event-Kept model udev action sub_system c h =
    if_rule Kept (text_eq sub_system (text "hidraw")) _ _
      (λ _. find_hidraws-Kept model udev _ (
        if_rule Kept (text_eq action (text "remove")) _ _
          (λ _. retire_reader-Kept c.input_reader c refl h) (λ _. h)))
      (λ _. h)

module _ (v : Variants) where
  open v use {Variant}

  change_device-Kept :
      (path : Text) (properties : List (Text × Variant)) (found : Option Properties)
      (c : Controller)
      → lookup path c.devices ≡ found
      → Kept c
      → Kept (change_device v path properties found c).0
  unfolding change_device
  change_device-Kept path properties none c e h = h
  change_device-Kept path properties (some props) c e h = h

  device_changed-Kept :
      (path : Text) (properties : List (Text × Variant)) (c : Controller)
      → Kept c
      → Kept (device_changed v path properties c).0
  unfolding device_changed
  device_changed-Kept path properties c h =
      change_device-Kept path properties (lookup path c.devices) c refl h

  step-Kept : (model : Model) (e : Event v) (c : Controller) → Kept c → Kept (step v model e c)
  unfolding step
  step-Kept model (added o path interfaces) c h =
      on_interfaces_added-Kept v model o path interfaces c h
  step-Kept model (removed path interfaces) c h =
      on_interfaces_removed-Kept model path interfaces c h
  step-Kept model (changed path properties) c h = device_changed-Kept path properties c h
  step-Kept model (udev_event udev action sub_system) c h =
      on_udev_event-Kept model udev action sub_system c h
  step-Kept model passes c h = passes-KeptAt c.input_reader c.loop c.next h

  steps-Kept :
      (model : Model) (es : List (Event v)) (c : Controller) → Kept c → Kept (steps v model es c)
  unfolding steps
  steps-Kept model [] c h = h
  steps-Kept model (e ∷ es) c h = steps-Kept model es (step v model e c) (step-Kept model e c h)

  -- Let the invariant of the loop hold, with numbers given out up to `next`. From the construction
  -- of a controller on, in whatever order the bus and udev report things and the loop starts its
  -- passes: the invariant of the loop holds, and the reader that the controller holds was neither
  -- destroyed nor given up to the loop.
  pub controller-Kept :
      (model : Model) (o : Outside) (udev : Udev)
      (objects : List (Text × List (Text × List (Text × Variant)))) (l : Loop) (next : ℕ)
      (es : List (Event v))
      → KeptAt none l next
      → Kept (steps v model es (construct v model o udev objects l next).0)
  unfolding construct
  controller-Kept model o udev objects l next es h =
      steps-Kept model es (construct v model o udev objects l next).0 (
        add_objects-Kept v model o objects _
          (find_hidraws-Kept model udev (new_controller l next) h))
