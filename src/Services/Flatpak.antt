-- ===== src/Services/Flatpak.antt =====
-- src/flatpak/flatpak_system_helper_client.cc: the version of Flatpak's system helper.
use sdbus_cpp_examples.Prelude.{ℕ, Bool, Option, none, some, List, [], ◌∷◌, ◌++◌}
use sdbus_cpp_examples.Prelude.Text.{Text, text}
use sdbus_cpp_examples.Prelude.Decimal.{decimal}
use sdbus_cpp_examples.Dbus.{Variants}
use sdbus_cpp_examples.Dbus.Tables.{Table, field, on_changed}

-- The constructor: version_, given what the property answers.
unfoldable pub construct : Option ℕ → ℕ
construct none = 0
construct (some version) = version

unfoldable pub helper_table : (v : Variants) → Table v.Variant ℕ
helper_table v = (text "version", field v.get_uint32 (λ x version. x)) ∷ []

-- onPropertiesChanged, without its logging.
unfoldable pub on_properties_changed : (v : Variants) → List (Text × v.Variant) → ℕ → ℕ × Bool
on_properties_changed v changed version = on_changed (helper_table v) changed version

-- printInfo, the lines that are logged.
unfoldable pub print_info : ℕ → List Text
print_info version =
    text "Flatpak SystemHelper:" ∷ (b'\t' ∷ text "version: " ++ decimal version) ∷ []
