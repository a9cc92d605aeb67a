-- ===== src/Bluez/Adapter1.antt =====
-- src/bluez/adapter1.h: a Bluetooth adapter. It asks BlueZ to start a discovery whenever it hears
-- that none is going on.
pub mod Branches
pub mod Discovery
use sdbus_cpp_examples.Prelude.{ℕ, suc, Bool, true, false, none, some, List, [], ◌∷◌, if◌then◌else◌}
use sdbus_cpp_examples.Prelude.Text.{Text, text, text_eq}
use sdbus_cpp_examples.Dbus.{Variants}
use sdbus_cpp_examples.Dbus.Tables.{Table, field, set_field}

-- Adapter1::Properties, and how often StartDiscovery was called.
pub record Adapter : Type 0 where
  pub address : Text
  pub address_type : Text
  pub alias : Text
  pub class_type : ℕ
  pub discoverable : Bool
  pub discoverable_timeout : ℕ
  pub discovering : Bool
  pub modalias : Text
  pub name : Text
  pub pairable : Bool
  pub pairable_timeout : ℕ
  pub powered : Bool
  pub uuids : List Text
  pub start_discovery_calls : ℕ

abbrev pub no_adapter : Adapter
no_adapter = record {
  address = [];
  address_type = [];
  alias = [];
  class_type = 0;
  discoverable = false;
  discoverable_timeout = 0;
  discovering = false;
  modalias = [];
  name = [];
  pairable = false;
  pairable_timeout = 0;
  powered = false;
  uuids = [];
  start_discovery_calls = 0;
}

-- `starts` is whether BlueZ answers StartDiscovery without an error, which sdbus-c++ throws.
module _ (v : Variants) (starts : Bool) where
  open v use {Variant, get_string, get_bool, get_uint32, get_strings}

  -- `if (!properties_.discovering) this->StartDiscovery();`.
  unfoldable pub keep_discovering : Adapter → Adapter × Bool
  keep_discovering p =
      if p.discovering
      then (p, true)
      else (record p { start_discovery_calls = suc p.start_discovery_calls }, starts)

  unfoldable pub adapter_table : Table Variant Adapter
  adapter_table =
      (text "Address", field get_string (λ x p. record p { address = x }))
      ∷ (text "AddressType", field get_string (λ x p. record p { address_type = x }))
      ∷ (text "Alias", field get_string (λ x p. record p { alias = x }))
      ∷ (text "Class", field get_uint32 (λ x p. record p { class_type = x }))
      ∷ (text "Discoverable", field get_bool (λ x p. record p { discoverable = x }))
      ∷ (
        text "DiscoverableTimeout",
        field get_uint32 (λ x p. record p { discoverable_timeout = x }),
      )
      ∷ (text "Discovering", field get_bool (λ x p. record p { discovering = x }))
      ∷ (text "Modalias", field get_string (λ x p. record p { modalias = x }))
      ∷ (text "Name", field get_string (λ x p. record p { name = x }))
      ∷ (text "Pairable", field get_bool (λ x p. record p { pairable = x }))
      ∷ (text "PairableTimeout", field get_uint32 (λ x p. record p { pairable_timeout = x }))
      ∷ (text "Powered", field get_bool (λ x p. record p { powered = x }))
      ∷ (text "UUIDs", field get_strings (λ x p. record p { uuids = x }))
      ∷ []

  -- One round of the loop: the adapter after it, and whether nothing was thrown.
  unfoldable pub change_property : Text → Variant → Adapter → Adapter × Bool
  change_property key value p = elim (set_field adapter_table key value p) [
    | none ↦ (p, false)
    | some p' ↦ if text_eq key (text "Discovering") then keep_discovering p' else (p', true)
  ]

  abbrev pub and_then : Adapter × Bool → (Adapter → Adapter × Bool) → Adapter × Bool
  and_then (p, true) k = k p
  and_then (p, false) k = (p, false)

  -- Adapter1::onPropertiesChanged.
  unfoldable pub on_properties_changed : List (Text × Variant) → Adapter → Adapter × Bool
  on_properties_changed [] p = (p, true)
  on_properties_changed ((key, value) ∷ changed) p =
      and_then (change_property key value p) (λ p'. on_properties_changed changed p')
