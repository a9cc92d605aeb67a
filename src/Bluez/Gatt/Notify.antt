-- ===== src/Bluez/Gatt/Notify.antt =====
-- The order in which GattCharacteristic1 reads its properties: "Flags" comes before the two
-- properties that depend on it, because a map is iterated in the order of its keys.
use sdbus_cpp_examples.Prelude.{
  ◌≡◌, refl, sym, subst, Bool, true, false, Option, none, some, List, [], ◌∷◌, All, ◌&&◌,
  Bool-cases, if◌then◌else◌, arith, inl, inr,
}
use mathlib.Core.Option.{some-injective}
use sdbus_cpp_examples.Prelude.Text.{Text, text, text_eq, text_eq_iff}
use sdbus_cpp_examples.Prelude.Map.{lookup, text_key}
use sdbus_cpp_examples.Dbus.{Variants, get_property_or, get_property}
use sdbus_cpp_examples.Dbus.Tables.{set_field, on_changed}
use sdbus_cpp_examples.Dbus.Tables.Latest.{read_or}
use sdbus_cpp_examples.Bluez.Gatt.{
  has_text, constructed, Characteristic, characteristic_table, gatt_characteristic,
  no_characteristic,
}
use sdbus_cpp_examples.Bluez.Gatt.Order.{
  text_less, Ordered, absent, flags_first, notifying_first, flags_before,
}
use sdbus_cpp_examples.Bluez.Gatt.Branches.{Round, set_field-Round}

same_if : {A : Type 0} (b : Bool) (a : A) → (if b then a else a) ≡ a
same_if b a = ground arith

-- The accessors of a map, for its first entry and for an absent key.
get_property_or-cons :
    {V T : Type 0} (read : V → Option T) (k key : Text) (value : V) (m : List (Text × V)) (d : T)
    → get_property_or read ((k, value) ∷ m) key d
      ≡ (if text_eq k key then read_or read value d else get_property_or read m key d)
unfolding get_property_or get_property lookup
get_property_or-cons read k key value m d = ground arith

get_property_or-missing :
    {V T : Type 0} (read : V → Option T) (key : Text) (m : List (Text × V)) (d : T)
    → lookup key m ≡ none
    → get_property_or read m key d ≡ d
unfolding get_property_or get_property
get_property_or-missing read key m d e = ground (arith, e)

module _ (v : Variants) where
  open v use {Variant, get_bool, get_strings}

  -- What the loop makes of the two members, as a function of the whole map.
  abbrev Notified : List (Text × Variant) → Characteristic → Characteristic → Type 0
  Notified m p p' =
      let given = get_property_or get_strings m (text "Flags") p.flags in
      (p'.flags ≡ given)
      × (p'.notifying ≡ (
          if has_text (text "notify") given
          then get_property_or get_bool m (text "Notifying") p.notifying
          else p.notifying))

  -- A round before the rest of the loop.
  cons-Notified :
      (k : Text) (value : Variant) (m : List (Text × Variant)) (p p1 p' : Characteristic)
      → All (λ (j, w). text_less k j ≡ true) m
      → Round v k value p p1
      → Notified m p1 p'
      → Notified ((k, value) ∷ m) p p'
  cons-Notified k value m p p1 p' after (f1, n1) (f, n) =
      let cf = get_property_or-cons get_strings k (text "Flags") value m p.flags in
      let cn = get_property_or-cons get_bool k (text "Notifying") value m p.notifying in
      elim (Bool-cases (text_eq k (text "Flags"))) [
        | inl a ↦
            let q = sym ((text_eq_iff k (text "Flags")).0 a) in
            let b = subst (λ t. text_eq t (text "Notifying") ≡ false) q refl in
            let gone = get_property_or-missing get_strings (text "Flags") m p1.flags (
              absent k (text "Flags") m after
                (subst (λ t. text_less t (text "Flags") ≡ false) q flags_first)) in
            (ground (arith, f, f1, cf, a, gone), ground (arith, f, n, f1, n1, cf, cn, a, b, gone))
        | inr a ↦ elim (Bool-cases (text_eq k (text "Notifying"))) [
          | inl b ↦
              let q = sym ((text_eq_iff k (text "Notifying")).0 b) in
              let gone = λ (d : List Text). get_property_or-missing get_strings (text "Flags") m d (
                absent k (text "Flags") m after
                  (subst (λ t. text_less t (text "Flags") ≡ false) q flags_before)) in
              let gone' = get_property_or-missing get_bool (text "Notifying") m p1.notifying (
                absent k (text "Notifying") m after
                  (subst (λ t. text_less t (text "Notifying") ≡ false) q notifying_first)) in
              (
                ground (arith, f, f1, cf, a, gone p.flags, gone p1.flags),
                ground (arith, n, f1, n1, cf, cn, a, b, gone p.flags, gone p1.flags, gone'),
              )
          | inr b ↦ (ground (arith, f, f1, cf, a), ground (arith, f, n, f1, n1, cf, cn, a, b))
        ]
      ]

  on_changed-Notified :
      (m : List (Text × Variant)) (p : Characteristic)
      → Ordered m
      → (on_changed (characteristic_table v) m p).1 ≡ true
      → Notified m p (on_changed (characteristic_table v) m p).0
  unfolding on_changed get_property_or get_property lookup
  on_changed-Notified [] p o ok = (refl, sym (same_if _ p.notifying))
  on_changed-Notified ((k, value) ∷ m) p (after, o) ok =
      rest (λ p1. on_changed-Notified m p1 o) (set_field (characteristic_table v) k value p) refl ok
    where
      rest :
          ((p1 : Characteristic)
            → (on_changed (characteristic_table v) m p1).1 ≡ true
            → Notified m p1 (on_changed (characteristic_table v) m p1).0)
          → (r : Option Characteristic) → set_field (characteristic_table v) k value p ≡ r
          → (elim r as (λ _. Characteristic × Bool) [
            | none ↦ (p, false)
            | some p1 ↦ on_changed (characteristic_table v) m p1
          ]).1
            ≡ true
          → Notified
              ((k, value) ∷ m)
              p
              (elim r as (λ _. Characteristic × Bool) [
                | none ↦ (p, false)
                | some p1 ↦ on_changed (characteristic_table v) m p1
              ]).0
      rest ih none e ok = cc
      rest ih (some p1) e ok =
          cons-Notified k value m p p1 (on_changed (characteristic_table v) m p1).0 after
            (set_field-Round v k value p p1 e) (ih p1 ok)

  constructed-Notified :
      (m : List (Text × Variant)) (p : Characteristic) (r : Characteristic × Bool)
      → (r.1 ≡ true → Notified m no_characteristic r.0)
      → constructed r ≡ some p
      → Notified m no_characteristic p
  constructed-Notified m p (q, true) h e =
      subst (λ p'. Notified m no_characteristic p') (some-injective q p e) (h refl)
  constructed-Notified m p (q, false) h e = cc

  -- For a map in the order of its keys, a characteristic that is constructed has the flags of the
  -- map, and is notifying exactly if those flags have "notify" and the map says so: a value of
  -- "Notifying" without the flag is ignored, whatever its type.
  pub gatt_characteristic-notifying :
      (m : List (Text × Variant)) (p : Characteristic)
      → Ordered m
      → gatt_characteristic v m ≡ some p
      → (p.flags ≡ get_property_or get_strings m (text "Flags") [])
        × (p.notifying ≡ (
            has_text (text "notify") p.flags
            && get_property_or get_bool m (text "Notifying") false))
  unfolding gatt_characteristic
  gatt_characteristic-notifying m p o e =
      let (f, n) =
        constructed-Notified m p (on_changed (characteristic_table v) m no_characteristic)
          (on_changed-Notified m no_characteristic o) e in
      (f, ground (arith, f, n))
