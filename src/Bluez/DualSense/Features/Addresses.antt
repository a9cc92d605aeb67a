-- ===== src/Bluez/DualSense/Features/Addresses.antt =====
-- What is logged of the addresses, and what becomes of a refused feature report.
use mathlib.Core.List.{reverse, reverse_aux}
use sdbus_cpp_examples.Prelude.{
  ℕ, ◌+◌, ◌*◌, ◌/◌, ◌%◌, ◌<◌, ◌≡◌, refl, ap, Option, none, some, List, [], ◌∷◌, bind, All, arith,
}
use sdbus_cpp_examples.Prelude.Text.{Text}
use sdbus_cpp_examples.Prelude.Decimal.{digit}
use sdbus_cpp_examples.Printing.Properties.Bytes.{digit_value, digit_value-digit}
use sdbus_cpp_examples.Bluez.DualSense.Features.{colons, mac_text}

-- A reader of two digits for each byte with a character between them.
unfoldable pub read_colons : Text → Option (List ℕ)
read_colons [] = some []
read_colons (a ∷ []) = none
read_colons (a ∷ b ∷ []) = some ((16 * digit_value a + digit_value b) ∷ [])
read_colons (a ∷ b ∷ c ∷ s) =
    bind (read_colons s) λ bytes. some ((16 * digit_value a + digit_value b) ∷ bytes)

byte_value :
    (b : ℕ) → b < 256 → 16 * digit_value (digit (b / 16)) + digit_value (digit (b % 16)) ≡ b
byte_value b h =
    omega
      (arith, digit_value-digit (b / 16) (omega arith), digit_value-digit (b % 16) (omega arith))

read_colons-colons :
    (bytes : List ℕ) → All (λ b. b < 256) bytes → read_colons (colons bytes) ≡ some bytes
unfolding read_colons colons
read_colons-colons [] h = refl
read_colons-colons (b ∷ []) (lt, h) = ap (λ n. some (n ∷ [])) (byte_value b lt)
read_colons-colons (b ∷ c ∷ bytes) (lt, h) =
    rw (read_colons-colons (c ∷ bytes) h) (ap (λ n. some (n ∷ c ∷ bytes)) (byte_value b lt))

All-reverse_aux :
    (xs ys : List ℕ)
    → All (λ b. b < 256) xs
    → All (λ b. b < 256) ys
    → All (λ b. b < 256) (reverse_aux xs ys)
All-reverse_aux [] ys h k = k
All-reverse_aux (x ∷ xs) ys (lt, h) k = All-reverse_aux xs (x ∷ ys) h (lt, k)

-- The address that is logged, read back, is the six bytes of the report with the last one first.
pub mac_text-reads :
    (bytes : List ℕ)
    → All (λ b. b < 256) bytes
    → read_colons (mac_text bytes) ≡ some (reverse bytes)
mac_text-reads bytes h = read_colons-colons (reverse bytes) (All-reverse_aux bytes [] h tt)
