-- ===== src/Udisks2/Size/Shown.antt =====
-- The text of formatSize, against the number of bytes.
use sdbus_cpp_examples.Prelude.{
  ℕ, zero, suc, ◌*◌, ◌/◌, ◌%◌, ◌^◌, ◌≤◌, ◌<◌, ◌≡◌, ap, refl, List, [], ◌∷◌, ◌++◌, length, get_elem?,
  some, arith, sym,
}
use sdbus_cpp_examples.Prelude.Text.{Text}
use sdbus_cpp_examples.Prelude.Decimal.{decimal, digits}
use sdbus_cpp_examples.Udisks2.Size.{units, unit_of, hundredths, with_unit, format_size}
use sdbus_cpp_examples.Udisks2.Size.Units.{Fits, Near, unit_of-Fits, hundredths-Near}

get_elem?-in :
    {A : Type 0} (xs : List A) (i : ℕ) → suc i ≤ length xs → (x : A) × (get_elem? xs i ≡ some x)
get_elem?-in [] i h = absurd (omega arith)
get_elem?-in (x ∷ xs) zero h = (x, refl)
get_elem?-in (x ∷ xs) (suc i) h = get_elem?-in xs i (omega arith)

-- formatSize finds a unit for every number of bytes: `units.at(unit)` does not throw.
pub format_size-some : (bytes : ℕ) → (t : Text) × (format_size bytes ≡ some t)
unfolding format_size
format_size-some bytes =
    let (p, le, r, s) = unit_of-Fits bytes in
    let (unit, e) = get_elem?-in units (unit_of bytes).0 (omega arith) in
    (_, ap (with_unit (hundredths bytes)) e)

-- For every number of bytes below 2^53 formatSize gives a text: a number with two digits after its
-- point, a space and the name of a unit. The unit is a power of 1024 that the number of bytes reaches,
-- unless it is B, and whose successor it does not reach, unless it is TB; and the number shown, in
-- hundredths of that power, is the number of bytes rounded to the nearest hundredth.
pub format_size-Near :
    (bytes : ℕ)
    → bytes < 9007199254740992
    → (unit : ℕ) × (name : Text) × (h : ℕ) × Fits bytes (unit, 1024 ^ unit)
      × (get_elem? units unit ≡ some name)
      × (format_size bytes
          ≡ some (
              decimal (h / 100)
              ++ b'.' ∷ digits 10 1 (h / 10 % 10)
              ++ digits 10 1 (h % 10)
              ++ b' ' ∷ name))
      × Near (100 * bytes) (1024 ^ unit) h
unfolding format_size
format_size-Near bytes small =
    let (p, le, r, s) = unit_of-Fits bytes in
    let (name, e) = get_elem?-in units (unit_of bytes).0 (omega arith) in
    (
      (unit_of bytes).0,
      name,
      hundredths bytes,
      rw (sym p) (refl, le, r, s),
      e,
      ap (with_unit (hundredths bytes)) e,
      rw (sym p) (hundredths-Near bytes small),
    )
