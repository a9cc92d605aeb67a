-- ===== src/Printing/Streams.antt =====
-- std::ostringstream with the one format flag that src/utils/utils.cc sets: std::hex, which stays
-- set until it is cleared, and nothing clears it.
use sdbus_cpp_examples.Prelude.{ℕ, ◌-◌, Bool, true, false, List, [], ◌∷◌, ◌++◌, if◌then◌else◌}
use sdbus_cpp_examples.Prelude.Text.{Text, text}
use sdbus_cpp_examples.Prelude.Int.{ℤ, pos, negsuc}
use sdbus_cpp_examples.Prelude.Decimal.{decimal, decimal_ℤ, hexadecimal, hex_byte}

pub record Stream : Type 0 where
  pub out : Text
  pub hex : Bool

abbrev pub new_stream : Stream
new_stream = record { out = []; hex = false }

abbrev pub Writes : Type 0
Writes = Stream → Stream

-- `os << a << b`.
infixl 20 ◌>>◌
unfoldable pub ◌>>◌ : Writes → Writes → Writes
f >> g = λ s. g (f s)

abbrev pub idle : Writes
idle s = s

unfoldable pub put : Text → Writes
put t s = record s { out = s.out ++ t }

abbrev pub endl : Writes
endl = put (b'\n' ∷ [])

abbrev pub tab : Writes
tab = put (b'\t' ∷ [])

-- `os << n` for an unsigned integer wider than a char.
unfoldable pub put_number : ℕ → Writes
put_number n s = put (if s.hex then hexadecimal n else decimal n) s

abbrev pub int32_bits : ℤ → ℕ
int32_bits (pos n) = n
int32_bits (negsuc n) = 4294967295 - n

-- `os << n` for an int32_t: std::hex shows it as unsigned.
unfoldable pub put_int32 : ℤ → Writes
put_int32 n s = put (if s.hex then hexadecimal (int32_bits n) else decimal_ℤ n) s

-- `os << b` for a uint8_t: a char.
unfoldable pub put_char : ℕ → Writes
put_char b = put (b ∷ [])

unfoldable pub set_hex : Writes
set_hex s = record s { hex = true }

-- `os << std::hex << std::setw(2) << std::setfill('0') << static_cast<int>(b) << " "`.
unfoldable pub put_byte : ℕ → Writes
put_byte b = set_hex >> put (hex_byte b ++ b' ' ∷ [])

-- A range-based for.
unfoldable pub for_each {ℓ} : {A : Type ℓ} → (A → Writes) → List A → Writes
for_each f [] = idle
for_each f (x ∷ xs) = f x >> for_each f xs

abbrev pub put_bytes : List ℕ → Writes
put_bytes = for_each put_byte

abbrev pub colon : Writes
colon = put (text ": ")

abbrev pub comma : Writes
comma = put (text ", ")

-- What follows the elements of a list: an empty list is shown as `""`.
abbrev pub if_empty {ℓ} : {A : Type ℓ} → List A → Writes → Writes
if_empty [] otherwise = tab >> put (text "\"\"") >> endl
if_empty (x ∷ xs) otherwise = otherwise
