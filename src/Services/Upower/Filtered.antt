-- ===== src/Services/Upower/Filtered.antt =====
-- Which devices a client of UPower holds.
use sdbus_cpp_examples.Prelude.{
  ◌≡◌, refl, Bool, true, false, ◌&&◌, ◌||◌, List, [], ◌∷◌, if◌then◌else◌, arith, Option-cases, inl,
  inr,
}
use sdbus_cpp_examples.Prelude.Text.{Text, text_eq, text_eq_iff}
use sdbus_cpp_examples.Prelude.Map.{
  lookup, has_key, insert, text_key, lookup-has_key, has_key-insert, has_key-remove,
}
use sdbus_cpp_examples.Dbus.{Variants}
use sdbus_cpp_examples.Services.Upower.DisplayDevice.{Properties, no_properties, failed, answered}
use sdbus_cpp_examples.Services.Upower.{
  Client, new_client, is_wanted, on_device_added, on_device_removed, add_all, on_devices, Event,
  enumerated, added, removed, all_properties, properties_changed, at_device, handle, run,
}
use sdbus_cpp_examples.Services.Objects.{names, unless_thrown}

-- Whether a device is there after an event, as UPower says it: `now` before.
unfoldable pub is_there_after : {V : Type 0} → Text → Bool → Event V → Bool
is_there_after d now (enumerated makes (answered devices)) = names d devices || now
is_there_after d now (added made device) = text_eq device d || now
is_there_after d now (removed device) = if text_eq device d then false else now
is_there_after d now _ = now

-- What UPower last said of a device: whether it is there after the events.
unfoldable pub is_there : {V : Type 0} → Text → Bool → List (Event V) → Bool
is_there d now [] = now
is_there d now (e ∷ events) = is_there d (is_there_after d now e) events

-- The client against the set of devices that are there: it holds no other, and while no constructor
-- has thrown it holds all that the filter lets through.
abbrev pub Holds : Text → Text → Bool → Client × Bool → Type 0
Holds filter d now (c, ok) =
    (c.device_filter ≡ filter)
    × (has_key d c.devices ≡ true → (is_wanted filter d && now) ≡ true)
    × (ok ≡ true → has_key d c.devices ≡ (is_wanted filter d && now))

-- A step's outcome after an earlier one's.
abbrev after : Bool → Client × Bool → Client × Bool
after ok (c, ok') = (c, ok && ok')

added-Holds :
    (filter d device : Text) (now made ok : Bool) (c : Client)
    → Holds filter d now (c, ok)
    → Holds filter d (text_eq device d || now) (after ok (on_device_added made device c))
unfolding on_device_added
added-Holds filter d device now made ok c (f, sound, exact) = (
  ground (arith, f),
  ground (arith, f, sound, text_eq_iff device d, has_key-insert device d no_properties c.devices),
  ground (arith, f, exact, text_eq_iff device d, has_key-insert device d no_properties c.devices),
)

removed-Holds :
    (filter d device : Text) (now ok : Bool) (c : Client)
    → Holds filter d now (c, ok)
    → Holds filter d (if text_eq device d then false else now) (on_device_removed device c, ok)
unfolding on_device_removed
removed-Holds filter d device now ok c (f, sound, exact) = (
  ground (arith, f),
  ground (arith, f, sound, text_eq_iff device d, has_key-remove device d c.devices),
  ground (arith, f, exact, text_eq_iff device d, has_key-remove device d c.devices),
)

add_all-Holds :
    (filter d : Text) (makes : Text → Bool) (devices : List Text) (now ok : Bool) (c : Client)
    → Holds filter d now (c, ok)
    → Holds filter d (names d devices || now) (after ok (add_all makes devices c))
unfolding add_all names
add_all-Holds filter d makes [] now ok c (f, sound, exact) = (f, sound, ground (arith, exact))
add_all-Holds filter d makes (device ∷ devices) now ok c h =
    rest (λ c' ok' h'. add_all-Holds filter d makes devices (text_eq device d || now) ok' c' h')
      (on_device_added (makes device) device c)
      (added-Holds filter d device now (makes device) ok c h)
  where
    rest :
        ((c' : Client) (ok' : Bool)
          → Holds filter d (text_eq device d || now) (c', ok')
          → Holds filter d
              (names d devices || (text_eq device d || now))
              (after ok' (add_all makes devices c')))
        → (r : Client × Bool) → Holds filter d (text_eq device d || now) (after ok r)
        → Holds filter d
            (names d (device ∷ devices) || now)
            (after ok (unless_thrown r (λ c'. add_all makes devices c')))
    rest ih (c', false) (f, sound, exact) = (f, ground (arith, sound), ground (arith))
    rest ih (c', true) h =
        let (f, sound, exact) = ih c' (ok && true) h in
        (f, ground (arith, sound), ground (arith, exact))

at_device-Holds :
    (filter d device : Text) (now ok : Bool) (f : Properties → Properties) (c : Client)
    → Holds filter d now (c, ok)
    → Holds filter d now (at_device device f c, ok)
unfolding at_device
at_device-Holds filter d device now ok f c h = elim (Option-cases (lookup device c.devices)) [
  | inl e ↦ rw (at_device, e) h
  | inr (p, e) ↦
      let same : has_key d (insert device (f p) c.devices) ≡ has_key d c.devices = ground (
        arith,
        has_key-insert device d (f p) c.devices,
        text_eq_iff device d,
        lookup-has_key device p c.devices e,
      ) in
      rw (at_device, e, same) h
]

module _ (v : Variants) where
  handle-Holds :
      (e : Event v.Variant) (filter d : Text) (now ok : Bool) (c : Client)
      → Holds filter d now (c, ok)
      → Holds filter d (is_there_after d now e) (after ok (handle v e c))
  unfolding handle is_there_after on_devices
  handle-Holds (enumerated makes failed) filter d now ok c (f, sound, exact) =
      (f, sound, ground (arith, exact))
  handle-Holds (enumerated makes (answered devices)) filter d now ok c h =
      add_all-Holds filter d makes devices now ok c h
  handle-Holds (added made device) filter d now ok c h = added-Holds filter d device now made ok c h
  handle-Holds (removed device) filter d now ok c h =
      let (f, sound, exact) = removed-Holds filter d device now ok c h in
      (f, sound, ground (arith, exact))
  handle-Holds (all_properties device reply) filter d now ok c h =
      let (f, sound, exact) = at_device-Holds filter d device now ok _ c h in
      (f, sound, ground (arith, exact))
  handle-Holds (properties_changed device changed) filter d now ok c h =
      let (f, sound, exact) = at_device-Holds filter d device now ok _ c h in
      (f, sound, ground (arith, exact))

  -- The invariant along the events.
  run-Holds :
      (events : List (Event v.Variant)) (filter d : Text) (now ok : Bool) (c : Client)
      → Holds filter d now (c, ok)
      → Holds filter d (is_there d now events) (after ok (run v events c))
  unfolding run is_there
  run-Holds [] filter d now ok c (f, sound, exact) = (f, sound, ground (arith, exact))
  run-Holds (e ∷ events) filter d now ok c h =
      let step = handle-Holds e filter d now ok c h in
      let (f, sound, exact) =
        run-Holds events filter d (is_there_after d now e) (ok && (handle v e c).1) (handle v e c).0
          step in
      (f, sound, ground (arith, exact))

  -- Whatever UPower announces, in whatever order, and whichever constructors of devices throw: a
  -- client holds a device only if its filter lets it through, being empty or the device's name, and
  -- the last that UPower said of the device, in the enumeration or a signal, is that it is there. An
  -- enumeration that fails says nothing. As long as no constructor has thrown it holds every such
  -- device.
  pub run-has_key :
      (events : List (Event v.Variant)) (filter d : Text)
      → let (c, ok) = run v events (new_client filter) in
        let due = is_wanted filter d && is_there d false events in
        ((has_key d c.devices && due) ≡ has_key d c.devices)
        × ((ok && has_key d c.devices) ≡ (ok && due))
  unfolding has_key
  run-has_key events filter d =
      let (f, sound, exact) =
        run-Holds events filter d false true (new_client filter)
          (refl, λ e. absurd cc, λ e. ground arith) in
      (ground (arith, sound), ground (arith, exact))
