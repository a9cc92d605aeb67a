-- ===== src/Bluez/Hidraw/Keys.antt =====
-- The key of a device in the map of hidraw devices.
use sdbus_cpp_examples.Prelude.{◌≡◌, refl, ap, sym, ◌∙◌, false, [], ◌∷◌, ◌++◌, map, arith}
use sdbus_cpp_examples.Prelude.Text.{Text, text, has_byte, to_upper, to_lower, to_upper-to_lower}
use sdbus_cpp_examples.Bluez.Hidraw.{
  unquote_front, unquote_back, replace_byte, create_device_key_from_serial_number,
}

unquote_front-plain : (s : Text) → has_byte b'"' s ≡ false → unquote_front s ≡ s
unfolding unquote_front
unquote_front-plain [] h = refl
unquote_front-plain (c ∷ s) h = ground arith

unquote_back-plain : (s : Text) → has_byte b'"' s ≡ false → unquote_back s ≡ s
unfolding unquote_back
unquote_back-plain [] h = refl
unquote_back-plain (c ∷ []) h = ground arith
unquote_back-plain (c ∷ d ∷ s) h = ground (arith, unquote_back-plain (d ∷ s))

unquote_back-quoted : (s : Text) → unquote_back (s ++ b'"' ∷ []) ≡ s
unfolding unquote_back
unquote_back-quoted [] = refl
unquote_back-quoted (c ∷ []) = refl
unquote_back-quoted (c ∷ d ∷ s) = ap (◌∷◌ c) (unquote_back-quoted (d ∷ s))

unquote_front-quoted : (s : Text) → unquote_front (b'"' ∷ s) ≡ s
unfolding unquote_front
unquote_front-quoted s = refl

upper_lower : (s : Text) → map to_upper (map to_lower s) ≡ map to_upper s
upper_lower [] = refl
upper_lower (c ∷ s) =
    ap (λ x. x ∷ map to_upper (map to_lower s)) (to_upper-to_lower c)
    ∙ ap (◌∷◌ (to_upper c)) (upper_lower s)

-- The UNIQ of an input device, in quotation marks and in lower case, and the address that BlueZ
-- gives for the same device have one key: `dev_` and the address in upper case with `_` for `:`.
pub device_key_agrees :
    (address : Text)
    → has_byte b'"' address ≡ false
    → (create_device_key_from_serial_number (b'"' ∷ (map to_lower address ++ b'"' ∷ []))
        ≡ create_device_key_from_serial_number address)
      × (create_device_key_from_serial_number address
          ≡ text "dev_" ++ replace_byte b':' b'_' (map to_upper address))
unfolding create_device_key_from_serial_number
device_key_agrees address h =
    let plain : unquote_back (unquote_front address) ≡ address =
      ap unquote_back (unquote_front-plain address h) ∙ unquote_back-plain address h in
    let quoted : unquote_back (unquote_front (b'"' ∷ (map to_lower address ++ b'"' ∷ [])))
        ≡ map to_lower address =
      ap unquote_back (unquote_front-quoted (map to_lower address ++ b'"' ∷ []))
      ∙ unquote_back-quoted (map to_lower address) in
    let same : map to_upper
          (unquote_back (unquote_front (b'"' ∷ (map to_lower address ++ b'"' ∷ []))))
        ≡ map to_upper (unquote_back (unquote_front address)) =
      ap (map to_upper) quoted ∙ (upper_lower address ∙ sym (ap (map to_upper) plain)) in
    (ap key same, ap key (ap (map to_upper) plain))
  where
    key : Text → Text
    key s = text "dev_" ++ replace_byte b':' b'_' s
