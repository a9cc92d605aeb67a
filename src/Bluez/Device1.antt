-- ===== src/Bluez/Device1.antt =====
-- src/bluez/device1.h: a BlueZ device, its properties and the parsing of its Modalias.
pub mod Parsing
use sdbus_cpp_examples.Prelude.{
  Bool, true, false, Option, none, some, List, [], ◌∷◌, if◌then◌else◌, bind,
}
use sdbus_cpp_examples.Prelude.Text.{Text, text, text_eq}
use sdbus_cpp_examples.Prelude.Int.{ℤ, pos}
use sdbus_cpp_examples.Dbus.{Variants}
use sdbus_cpp_examples.Bluez.Patterns.{literal, hex_digits, search_from}

pub record Modalias : Type 0 where
  pub vid : Text
  pub pid : Text
  pub did : Text

-- One group of the expression: a literal, then four hexadecimal digits. The group, and what is left.
unfoldable pub field : Text → Text → Option (Text × Text)
field label s = bind (literal label s) (hex_digits 4)

-- Three of them in a row.
unfoldable pub three_fields : Text → Text → Text → Text → Option Modalias
three_fields a b c s = bind (field a s) λ v.
    bind (field b v.1)
      λ p. bind (field c p.1) λ d. some (record { vid = v.0; pid = p.0; did = d.0 })

-- The expression `usb:v([0-9A-Fa-f]{4})p([0-9A-Fa-f]{4})d([0-9A-Fa-f]{4})` at one position.
unfoldable pub modalias_here : Text → Option Modalias
modalias_here s = three_fields (text "usb:v") (text "p") (text "d") s

-- Device1::parse_modalias.
unfoldable pub parse_modalias : Text → Option Modalias
parse_modalias mod_alias = search_from modalias_here mod_alias

-- Device1::Properties, without the two maps of raw variants (manufacturer_data, service_data).
pub record Properties : Type 0 where
  pub adapter : Text
  pub address : Text
  pub address_type : Text
  pub alias : Text
  pub blocked : Bool
  pub bonded : Bool
  pub connected : Bool
  pub legacy_pairing : Bool
  pub modalias : Option Modalias
  pub name : Text
  pub paired : Bool
  pub rssi : ℤ
  pub services_resolved : Bool
  pub trusted : Bool
  pub uuids : List Text

-- `Properties properties_{}`.
abbrev pub no_properties : Properties
no_properties = record {
  adapter = [];
  address = [];
  address_type = [];
  alias = [];
  blocked = false;
  bonded = false;
  connected = false;
  legacy_pairing = false;
  modalias = none;
  name = [];
  paired = false;
  rssi = pos 0;
  services_resolved = false;
  trusted = false;
  uuids = [];
}

module _ (v : Variants) where
  open v use {
    Variant, get_string, get_object_path, get_bool, get_int16, get_strings, get_variant_map,
  }

  -- One round of the loop of Device1::onPropertiesChanged: `none` where `get<T>()` throws.
  -- The map that "ServiceData" stores is left out of the model, not the exception.
  unfoldable pub set_property : Text → Variant → Properties → Option Properties
  set_property key value p =
      if text_eq key (text "Adapter")
      then bind (get_object_path value) (λ x. some (record p { adapter = x }))
      else if text_eq key (text "Address")
      then bind (get_string value) (λ x. some (record p { address = x }))
      else if text_eq key (text "AddressType")
      then bind (get_string value) (λ x. some (record p { address_type = x }))
      else if text_eq key (text "Bonded")
      then bind (get_bool value) (λ x. some (record p { bonded = x }))
      else if text_eq key (text "Blocked")
      then bind (get_bool value) (λ x. some (record p { blocked = x }))
      else if text_eq key (text "Connected")
      then bind (get_bool value) (λ x. some (record p { connected = x }))
      else if text_eq key (text "LegacyPairing")
      then bind (get_bool value) (λ x. some (record p { legacy_pairing = x }))
      else if text_eq key (text "Paired")
      then bind (get_bool value) (λ x. some (record p { paired = x }))
      else if text_eq key (text "Modalias")
      then bind (get_string value) (λ x. some (record p { modalias = parse_modalias x }))
      else if text_eq key (text "Name")
      then bind (get_string value) (λ x. some (record p { name = x }))
      else if text_eq key (text "ServiceData")
      then bind (get_variant_map value) (λ _. some p)
      else if text_eq key (text "RSSI")
      then bind (get_int16 value) (λ x. some (record p { rssi = x }))
      else if text_eq key (text "ServicesResolved")
      then bind (get_bool value) (λ x. some (record p { services_resolved = x }))
      else if text_eq key (text "Trusted")
      then bind (get_bool value) (λ x. some (record p { trusted = x }))
      else if text_eq key (text "UUIDs")
      then bind (get_strings value) (λ x. some (record p { uuids = x }))
      else some p

  -- Device1::onPropertiesChanged; on an exception the properties set so far stay, and it goes up.
  unfoldable pub on_properties_changed : List (Text × Variant) → Properties → Properties × Bool
  on_properties_changed [] p = (p, true)
  on_properties_changed ((key, value) ∷ changed) p = elim (set_property key value p) [
    | none ↦ (p, false)
    | some p' ↦ on_properties_changed changed p'
  ]
