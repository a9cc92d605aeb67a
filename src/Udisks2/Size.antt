-- ===== src/Udisks2/Size.antt =====
-- src/udisks2/udisks2_monitor_daemon.cc: byteArrayToString and formatSize.
pub mod Shown
pub mod Units
pub mod Trimmed
use sdbus_cpp_examples.Prelude.{
  ℕ, zero, suc, ◌+◌, ◌-◌, ◌*◌, ◌/◌, ◌%◌, Bool, true, false, ◌&&◌, ◌≡◌, if◌then◌else◌, leb, ltb,
  ◌==◌, List, [], ◌∷◌, ◌++◌, length, take, get_or, get_elem?, Option, none, some,
}
use sdbus_cpp_examples.Prelude.Text.{Text, text}
use sdbus_cpp_examples.Prelude.Decimal.{decimal, digits}

-- The loop of byteArrayToString: `end` goes down while the byte before it is 0.
unfoldable pub trimmed_end : List ℕ → ℕ → ℕ
trimmed_end bytes zero = 0
trimmed_end bytes (suc n) = if get_or bytes n 0 == 0 then trimmed_end bytes n else suc n

-- byteArrayToString: `std::bit_cast<char>` keeps the byte.
unfoldable pub byte_array_to_string : List ℕ → Text
byte_array_to_string bytes = take (trimmed_end bytes (length bytes)) bytes

-- `static_cast<double>` of an integer: the mantissa, of at most 53 bits, and its power of two. Eleven
-- rounds are enough for 64 bits.
unfoldable pub normalize : ℕ → ℕ × ℕ → ℕ × ℕ
normalize zero d = d
normalize (suc fuel) (mantissa, power) =
    if ltb mantissa 9007199254740992
    then (mantissa, power)
    else normalize fuel (mantissa / 2, power * 2)

-- The quotient rounded to the nearest, to the even one of two.
unfoldable pub round_half_even : ℕ → ℕ → ℕ
round_half_even a b =
    if ltb (2 * (a % b)) b
    then a / b
    else if ltb b (2 * (a % b))
    then a / b + 1
    else a / b + a / b % 2

unfoldable pub to_double : ℕ → ℕ
to_double n = let d = normalize 11 (n, 1) in round_half_even n d.1 * d.1

abbrev pub max_unit : ℕ
max_unit = 4

-- The loop of formatSize, on `fuel` rounds: `size` is `n / scale`, exactly, since a double is divided
-- by 1024 without rounding.
unfoldable pub scale_down : ℕ → ℕ → ℕ × ℕ → ℕ × ℕ
scale_down n zero state = state
scale_down n (suc fuel) (unit, scale) =
    if leb (1024 * scale) n && ltb unit max_unit && ltb 0 n
    then scale_down n fuel (suc unit, 1024 * scale)
    else (unit, scale)

abbrev pub units : List Text
units = text "B" ∷ text "KB" ∷ text "MB" ∷ text "GB" ∷ text "TB" ∷ []

-- `unit` and the power of 1024 that belongs to it.
unfoldable pub unit_of : ℕ → ℕ × ℕ
unit_of bytes = scale_down (to_double bytes) max_unit (0, 1)

-- `size` in hundredths, as std::fixed with std::setprecision(2) rounds it.
unfoldable pub hundredths : ℕ → ℕ
hundredths bytes = round_half_even (100 * to_double bytes) (unit_of bytes).1

-- The text, `none` where `units.at(unit)` throws.
abbrev pub with_unit : ℕ → Option Text → Option Text
with_unit h none = none
with_unit h (some unit) =
    some
      (decimal (h / 100) ++ b'.' ∷ digits 10 1 (h / 10 % 10) ++ digits 10 1 (h % 10) ++ b' ' ∷ unit)

-- formatSize.
unfoldable pub format_size : ℕ → Option Text
format_size bytes = with_unit (hundredths bytes) (get_elem? units (unit_of bytes).0)
