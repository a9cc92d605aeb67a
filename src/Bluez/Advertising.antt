-- ===== src/Bluez/Advertising.antt =====
-- src/bluez/le_advertising_manager1.h: what an adapter can advertise.
use sdbus_cpp_examples.Prelude.{ℕ, List, [], ◌∷◌}
use sdbus_cpp_examples.Prelude.Text.{Text, text}
use sdbus_cpp_examples.Dbus.{Variants}
use sdbus_cpp_examples.Dbus.Tables.{Table, field}

-- LEAdvertisingManager1::Properties; Dbus.Tables.on_changed is its onPropertiesChanged.
pub record LeAdvertisingManager : Type 0 where
  pub active_instances : ℕ
  pub supported_includes : List Text
  pub supported_instances : ℕ
  pub supported_secondary_channels : List Text

unfoldable pub advertising_table : (v : Variants) → Table v.Variant LeAdvertisingManager
advertising_table v =
    (text "ActiveInstances", field v.get_byte (λ x p. record p { active_instances = x }))
    ∷ (text "SupportedIncludes", field v.get_strings (λ x p. record p { supported_includes = x }))
    ∷ (text "SupportedInstances", field v.get_byte (λ x p. record p { supported_instances = x }))
    ∷ (
      text "SupportedSecondaryChannels",
      field v.get_strings (λ x p. record p { supported_secondary_channels = x }),
    )
    ∷ []
