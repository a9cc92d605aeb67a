-- ===== src/Bluez/Hidraw/Listed.antt =====
-- What the enumeration of udev devices returns.
use mathlib.Core.Option.{some-injective}
use sdbus_cpp_examples.Prelude.{
  ℕ, zero, suc, ◌≡◌, refl, sym, ap, ◌∙◌, subst, true, false, not, Bool-cases, inl, inr, Option,
  none, some, List, [], ◌∷◌, if_rule, All, All-In, In, arith, get_elem?,
}
use sdbus_cpp_examples.Prelude.Text.{Text, text_eq, text_eq_iff, text_eq_self}
use sdbus_cpp_examples.Prelude.Map.{lookup, Entries, insert-Entries, lookup-insert, text_key}
use sdbus_cpp_examples.Bluez.Hidraw.Devices.{
  Udev, Properties, read_properties, has_value, matches, add_device, add_devices,
  get_udev_properties,
}

-- The properties have every value that the parameters ask for.
abbrev pub Matches : List (Text × Text) → Properties → Type 0
Matches match_params properties = All (λ kv. lookup kv.0 properties ≡ some kv.1) match_params

has_value-some : (o : Option Text) (value : Text) → has_value o value ≡ true → o ≡ some value
has_value-some none value h = cc
has_value-some (some v) value h = ground (arith, text_eq_iff v value)

matches-Matches :
    (match_params : List (Text × Text)) (properties : Properties)
    → matches match_params properties ≡ true
    → Matches match_params properties
unfolding matches
matches-Matches [] properties h = tt
matches-Matches ((key, value) ∷ match_params) properties h = (
  has_value-some (lookup key properties) value (ground arith),
  matches-Matches match_params properties (ground arith),
)

has_value_lem : (o : Option Text) (value : Text) → o ≡ some value → has_value o value ≡ true
has_value_lem o value e = rw e (text_eq_self value)

Matches-matches :
    (match_params : List (Text × Text)) (properties : Properties)
    → Matches match_params properties
    → matches match_params properties ≡ true
unfolding matches
Matches-matches [] properties h = refl
Matches-matches ((key, value) ∷ match_params) properties (h, hs) =
    rw (has_value_lem (lookup key properties) value h) (Matches-matches match_params properties hs)

module _ (udev : Udev) (sub_system : Text) (match_params : List (Text × Text)) where
  -- The path is an entry of the subsystem, and the properties are those that libudev lists for its
  -- device, which have every value that is asked for.
  abbrev pub IsDevice : Text → Properties → Type 0
  IsDevice path properties =
      In (udev.entries sub_system) (some path)
      × ((list : List (Option Text × Option Text)) × (udev.device path ≡ some list)
          × (properties ≡ read_properties list []))
      × Matches match_params properties

  -- The four calls that start an enumeration succeed.
  abbrev pub Succeeds : Type 0
  Succeeds =
      (udev.context ≡ true)
      × (udev.enumerate ≡ true)
      × (udev.add_match sub_system ≡ true)
      × (udev.scan sub_system ≡ true)

  abbrev Listed : List (Text × Properties) → Type 0
  Listed results = Entries IsDevice results

  add_device-Listed :
      (path : Text) (o : Option (List (Option Text × Option Text)))
      (results : List (Text × Properties))
      → udev.device path ≡ o
      → In (udev.entries sub_system) (some path)
      → Listed results
      → Listed (add_device match_params path o results)
  unfolding add_device
  add_device-Listed path none results d i h = h
  add_device-Listed path (some list) results d i h =
      if_rule Listed (matches match_params (read_properties list [])) _ _
        (λ e.
          insert-Entries IsDevice path (read_properties list []) results
            (i, (list, d, refl), matches-Matches match_params (read_properties list []) e) h)
        (λ _. h)

  add_devices-Listed :
      (entries : List (Option Text)) (results : List (Text × Properties))
      → All (In (udev.entries sub_system)) entries
      → Listed results
      → Listed (add_devices udev match_params entries results)
  unfolding add_devices
  add_devices-Listed [] results i h = h
  add_devices-Listed (none ∷ entries) results i h = add_devices-Listed entries results i.1 h
  add_devices-Listed (some path ∷ entries) results i h =
      add_devices-Listed entries _ i.1
        (add_device-Listed path (udev.device path) results refl i.0 h)

  -- Whatever libudev answers, each device that get_udev_properties returns is one of the subsystem
  -- with the properties that are asked for.
  pub get_udev_properties-Listed : Listed (get_udev_properties udev sub_system match_params)
  unfolding get_udev_properties
  get_udev_properties-Listed =
      if_rule Listed (not udev.context) _ _ (λ _. tt)
        (λ _.
          if_rule Listed (not udev.enumerate) _ _ (λ _. tt)
            (λ _.
              if_rule Listed (not (udev.add_match sub_system)) _ _ (λ _. tt)
                (λ _.
                  if_rule Listed (not (udev.scan sub_system)) _ _ (λ _. tt)
                    (λ _.
                      add_devices-Listed (udev.entries sub_system) []
                        (All-In (udev.entries sub_system)) tt))))

  module _ (path : Text) (properties : Properties) (d : IsDevice path properties) where
    abbrev Has : List (Text × Properties) → Type 0
    Has results = lookup path results ≡ some properties

    -- Its own round adds the device, and another round leaves it.
    add_device-own :
        (o : Option (List (Option Text × Option Text))) (results : List (Text × Properties))
        → udev.device path ≡ o
        → Has (add_device match_params path o results)
    unfolding add_device
    add_device-own none results e = let (i, (list, q, r), m) = d in cc
    add_device-own (some list) results e =
        let (i, (list', q, r), m) = d in
        let same : read_properties list [] ≡ properties =
          ap (λ l. read_properties l []) (some-injective list list' (sym e ∙ q)) ∙ sym r in
        rw (same, Matches-matches match_params properties m)
          (lookup-insert path path properties results ∙ rw (text_eq_self path) refl)

    round_own :
        (q : Text) (results : List (Text × Properties))
        → q ≡ path
        → Has (add_device match_params q (udev.device q) results)
    round_own q results e =
        subst (λ p. Has (add_device match_params p (udev.device p) results)) (sym e)
          (add_device-own (udev.device path) results refl)

    round_other :
        (q : Text) (o : Option (List (Option Text × Option Text)))
        (results : List (Text × Properties))
        → text_eq q path ≡ false
        → Has results
        → Has (add_device match_params q o results)
    unfolding add_device
    round_other q none results e h = h
    round_other q (some list) results e h =
        if_rule Has (matches match_params (read_properties list [])) _ _
          (λ _. lookup-insert q path (read_properties list []) results ∙ rw e h) (λ _. h)

    add_devices-keeps :
        (entries : List (Option Text)) (results : List (Text × Properties))
        → Has results
        → Has (add_devices udev match_params entries results)
    unfolding add_devices
    add_devices-keeps [] results h = h
    add_devices-keeps (none ∷ entries) results h = add_devices-keeps entries results h
    add_devices-keeps (some q ∷ entries) results h =
        add_devices-keeps entries _ (elim (Bool-cases (text_eq q path)) [
          | inl same ↦ round_own q results ((text_eq_iff q path).0 same)
          | inr other ↦ round_other q (udev.device q) results other h
        ])

    add_devices-adds :
        (entries : List (Option Text)) (i : ℕ) (results : List (Text × Properties))
        → get_elem? entries i ≡ some (some path)
        → Has (add_devices udev match_params entries results)
    unfolding add_devices
    add_devices-adds [] i results e = cc
    add_devices-adds (none ∷ entries) zero results e = cc
    add_devices-adds (some q ∷ entries) zero results e =
        add_devices-keeps entries _
          (round_own q results (some-injective q path (some-injective (some q) (some path) e)))
    add_devices-adds (none ∷ entries) (suc i) results e = add_devices-adds entries i results e
    add_devices-adds (some q ∷ entries) (suc i) results e = add_devices-adds entries i _ e

    -- If the enumeration can be made, it returns each such device.
    pub get_udev_properties-lookup :
        Succeeds → lookup path (get_udev_properties udev sub_system match_params) ≡ some properties
    unfolding get_udev_properties
    get_udev_properties-lookup (c, n, a, s) =
        let found = add_devices-adds (udev.entries sub_system) d.0.0 [] d.0.1 in
        ground (arith, c, n, a, s, found)
