-- ===== src/Bluez/Adapter1/Discovery.antt =====
-- When an adapter asks for a discovery.
use sdbus_cpp_examples.Prelude.{
  ℕ, ◌+◌, ◌≡◌, refl, subst, ◌∙◌, Bool, true, false, Option, none, some, List, [], ◌∷◌,
  if◌then◌else◌, arith, Bool-cases, inl, inr,
}
use sdbus_cpp_examples.Prelude.Text.{Text, text, text_eq}
use sdbus_cpp_examples.Prelude.Map.{has_key, text_key}
use sdbus_cpp_examples.Dbus.{Variants}
use sdbus_cpp_examples.Dbus.Tables.{set_field}
use sdbus_cpp_examples.Dbus.Tables.Latest.{set_field-WritesFor, if-and_true}
use sdbus_cpp_examples.Bluez.Adapter1.{
  Adapter, keep_discovering, adapter_table, change_property, on_properties_changed, and_then,
}
use sdbus_cpp_examples.Bluez.Adapter1.Branches.{calls, says, calls-WritesFor, says-WritesFor}

module _ (v : Variants) (starts : Bool) where
  open v use {Variant, get_bool, get_string, get_uint32, get_strings}

  -- How often the change says that no discovery is going on.
  abbrev pub stopped_once : Text → Option Bool → ℕ
  stopped_once key none = 0
  stopped_once key (some true) = 0
  stopped_once key (some false) = if text_eq key (text "Discovering") then 1 else 0

  unfoldable pub stopped : List (Text × Variant) → ℕ
  stopped [] = 0
  stopped ((key, value) ∷ changed) = stopped_once key (get_bool value) + stopped changed

  stopped_once-other :
      (key : Text) (o : Option Bool)
      → text_eq key (text "Discovering") ≡ false
      → stopped_once key o ≡ 0
  stopped_once-other key none other = refl
  stopped_once-other key (some true) other = refl
  stopped_once-other key (some false) other = ground (arith, other)

  -- The branch for the key, once the member is written.
  answered :
      (key : Text) (n : ℕ) (p' : Adapter)
      → calls p' ≡ n
      → text_eq key (text "Discovering") ≡ true
      → calls (keep_discovering v starts p').0 ≡ stopped_once key (some p'.discovering) + n
  unfolding keep_discovering
  answered key n p' c same = elim (Bool-cases p'.discovering) [
    | inl on ↦ rw on (ground (arith, c))
    | inr off ↦ rw off (ground (arith, c, same))
  ]

  kept :
      (key : Text) (value : Variant) (p p' : Adapter)
      → set_field (adapter_table v starts) key value p ≡ some p'
      → calls
          (if text_eq key (text "Discovering") then keep_discovering v starts p' else (p', true)).0
        ≡ stopped_once key (get_bool value) + calls p
  unfolding has_key adapter_table
  kept key value p p' q =
      let c =
        set_field-WritesFor calls (λ w r. calls r) (text "Discovering") (adapter_table v starts) key
          value p p' (calls-WritesFor v starts) q in
      let d =
        set_field-WritesFor says (λ w r. get_bool w) (text "Discovering") (adapter_table v starts)
          key value p p' (says-WritesFor v starts) q
        ∙ if-and_true (get_bool value) (says p) (text_eq key (text "Discovering")) true refl in
      let c' : calls p' ≡ calls p = ground (arith, c) in
      elim (Bool-cases (text_eq key (text "Discovering"))) [
        | inl same ↦
            let d' : some p'.discovering ≡ get_bool value = ground (arith, d, same) in
            rw same (
              subst (λ o. calls (keep_discovering v starts p').0 ≡ stopped_once key o + calls p) d'
                (answered key (calls p) p' c' same))
        | inr other ↦ ground (arith, c', other, stopped_once-other key (get_bool value) other)
      ]

  -- A round that throws nothing.
  change_property-calls :
      (key : Text) (value : Variant) (p : Adapter)
      → (change_property v starts key value p).1 ≡ true
      → calls (change_property v starts key value p).0 ≡ stopped_once key (get_bool value) + calls p
  unfolding change_property
  change_property-calls key value p e =
      round (set_field (adapter_table v starts) key value p) refl e
    where
      round :
          (o : Option Adapter)
          → set_field (adapter_table v starts) key value p ≡ o
          → (elim o as (λ _. Adapter × Bool) [
            | none ↦ (p, false)
            | some p' ↦
                if text_eq key (text "Discovering")
                then keep_discovering v starts p'
                else (p', true)
          ]).1
            ≡ true
          → calls
              (elim o as (λ _. Adapter × Bool) [
                | none ↦ (p, false)
                | some p' ↦
                    if text_eq key (text "Discovering")
                    then keep_discovering v starts p'
                    else (p', true)
              ]).0
            ≡ stopped_once key (get_bool value) + calls p
      round none q e = cc
      round (some p') q e = kept key value p p' q

  and_then-calls :
      (r : Adapter × Bool) (k : Adapter → Adapter × Bool) (m n : ℕ)
      → (and_then v starts r k).1 ≡ true
      → (r.1 ≡ true → calls r.0 ≡ m)
      → ((p : Adapter) → (k p).1 ≡ true → calls (k p).0 ≡ n + calls p)
      → calls (and_then v starts r k).0 ≡ n + m
  and_then-calls (p, true) k m n e h g = ground (arith, g p e, h refl)
  and_then-calls (p, false) k m n e h g = cc

  -- A change of properties that ends without an exception calls StartDiscovery once for each time it
  -- says that no discovery is going on, and never else.
  pub on_properties_changed-calls :
      (changed : List (Text × Variant)) (p : Adapter)
      → (on_properties_changed v starts changed p).1 ≡ true
      → calls (on_properties_changed v starts changed p).0 ≡ stopped changed + calls p
  unfolding on_properties_changed stopped
  on_properties_changed-calls [] p e = omega arith
  on_properties_changed-calls ((key, value) ∷ changed) p e =
      and_then-calls (change_property v starts key value p) _ _ (stopped changed) e
        (change_property-calls key value p) (λ p' e'. on_properties_changed-calls changed p' e')
      ∙ omega arith
