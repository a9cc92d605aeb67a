-- ===== src/Services/Locale1.antt =====
-- src/locale1/locale1_client.cc: the locale of the system, and the text that is logged of it.
use sdbus_cpp_examples.Prelude.{Bool, List, [], ◌∷◌}
use sdbus_cpp_examples.Prelude.Text.{Text, text}
use sdbus_cpp_examples.Dbus.{Variants}
use sdbus_cpp_examples.Dbus.Tables.{Table, field, on_changed}
use sdbus_cpp_examples.Printing.Streams.{Writes, new_stream, ◌>>◌, idle, put, endl, tab, for_each}
use sdbus_cpp_examples.Services.Hostname1.{put_text}

-- Locale1Client::locale1.
pub record Locale1 : Type 0 where
  pub locale : List Text
  pub x11_layout : Text
  pub x11_model : Text
  pub x11_variant : Text
  pub x11_options : Text
  pub v_console_keymap : Text
  pub v_console_keymap_toggle : Text

module _ (v : Variants) where
  open v use {Variant, get_string, get_strings}

  unfoldable pub locale_table : Table Variant Locale1
  locale_table =
      (text "Locale", field get_strings (λ x p. record p { locale = x }))
      ∷ (text "X11Layout", field get_string (λ x p. record p { x11_layout = x }))
      ∷ (text "X11Model", field get_string (λ x p. record p { x11_model = x }))
      ∷ (text "X11Variant", field get_string (λ x p. record p { x11_variant = x }))
      ∷ (text "X11Options", field get_string (λ x p. record p { x11_options = x }))
      ∷ (text "VConsoleKeymap", field get_string (λ x p. record p { v_console_keymap = x }))
      ∷ (
        text "VConsoleKeymapToggle",
        field get_string (λ x p. record p { v_console_keymap_toggle = x }),
      )
      ∷ []

  -- updateLocale1, which is onPropertiesChanged as well.
  unfoldable pub update_locale1 : List (Text × Variant) → Locale1 → Locale1 × Bool
  update_locale1 changed p = on_changed locale_table changed p

abbrev pub put_locale : List Text → Writes
put_locale [] = idle
put_locale (s ∷ ss) =
    put (text "Locale:") >> endl >> for_each (λ t. tab >> put t >> put (text " ")) (s ∷ ss) >> endl

-- printLocale1, the text that is logged.
unfoldable pub print_locale1 : Locale1 → Text
print_locale1 p =
    ((put_locale p.locale
        >> put_text (b'\t' ∷ text "X11Layout: ") p.x11_layout
        >> put_text (b'\t' ∷ text "X11Model: ") p.x11_model
        >> put_text (b'\t' ∷ text "X11Variant: ") p.x11_variant
        >> put_text (b'\t' ∷ text "X11Options: ") p.x11_options
        >> put_text (b'\t' ∷ text "VConsoleKeymap: ") p.v_console_keymap
        >> put_text (b'\t' ∷ text "VConsoleKeymapToggle: ") p.v_console_keymap_toggle)
      new_stream).out
