-- ===== src/Prelude/Decimal.antt =====
-- Numbers as text: what `std::to_string` and `operator<<` write for an integer, and std::hex.
use sdbus_cpp_examples.Prelude.Tests.{ltb, if◌then◌else◌}
use sdbus_cpp_examples.Prelude.Text.{Text}
use sdbus_cpp_examples.Prelude.Int.{ℤ, pos, negsuc}
use Prim.Native.Nat.{ℕ, zero, suc, ◌+◌, ◌-◌, ◌/◌, ◌%◌}
use mathlib.Core.Bool.{true, false}
use mathlib.Core.List.{[], ◌∷◌, ◌++◌}

-- A digit, in lower case past 9.
abbrev pub digit : ℕ → ℕ
digit d = if ltb d 10 then b'0' + d else b'a' + (d - 10)

-- The number in a base, in at most `fuel` digits.
unfoldable pub digits : ℕ → ℕ → ℕ → Text
digits base zero n = []
digits base (suc fuel) n = elim (ltb n base) [
  | true ↦ digit n ∷ []
  | false ↦ digits base fuel (n / base) ++ digit (n % base) ∷ []
]

-- Twenty digits are enough for every number of 64 bits, in base 10 and 16.
abbrev pub decimal : ℕ → Text
decimal n = digits 10 20 n

abbrev pub hexadecimal : ℕ → Text
hexadecimal n = digits 16 20 n

abbrev pub decimal_ℤ : ℤ → Text
decimal_ℤ (pos n) = decimal n
decimal_ℤ (negsuc n) = b'-' ∷ decimal (suc n)

-- Two hexadecimal digits, as `std::setw(2)` with fill '0' writes a byte.
abbrev pub hex_byte : ℕ → Text
hex_byte b = digit (b / 16) ∷ digit (b % 16) ∷ []
