-- ===== src/Printing/Json.antt =====
-- src/utils/utils.cc: scalarToString and elementToLines, over the values that glz::generic holds. A
-- number is a double; `double_text` is std::to_string of it.
pub mod Lines
use sdbus_cpp_examples.Prelude.{
  ℕ, zero, suc, ◌+◌, ◌*◌, ◌/◌, ◌%◌, ◌^◌, ◌==◌, leb, if◌then◌else◌, Bool, true, false, ◌⊎◌, inl, inr,
  Option, none, some, List, [], ◌∷◌, ◌++◌, replicate,
}
use sdbus_cpp_examples.Prelude.Text.{Text, text}
use sdbus_cpp_examples.Prelude.Int.{ℤ, pos, negsuc}
use sdbus_cpp_examples.Prelude.Decimal.{decimal, decimal_ℤ}

-- A finite double, the mantissa times a power of two, or one of the others by its bits.
pub data Double : Type 0 where
  finite : ℤ → ℤ → Double
  not_finite : ℕ → Double

-- A natural times a power of two, if it is an integer: `d == std::floor(d)`.
abbrev pub scaled : ℕ → ℤ → Option ℕ
scaled n (pos k) = some (n * 2 ^ k)
scaled n (negsuc k) = if n % 2 ^ suc k == 0 then some (n / 2 ^ suc k) else none

-- The integer of at most 2^53 in size, to be shown without a fraction.
abbrev pub safe : (ℕ → ℤ) → Option ℕ → Option ℤ
safe sign none = none
safe sign (some n) = if leb n 9007199254740992 then some (sign n) else none

abbrev pub negated : ℕ → ℤ
negated zero = pos 0
negated (suc n) = negsuc n

unfoldable pub as_integer : Double → Option ℤ
as_integer (finite (pos m) exponent) = safe pos (scaled m exponent)
as_integer (finite (negsuc m) exponent) = safe negated (scaled (suc m) exponent)
as_integer (not_finite bits) = none

mutual
  pub data Json : Type 0 where
    null : Json
    string : Text → Json
    number : Double → Json
    boolean : Bool → Json
    object : Members → Json
    array : Items → Json

  pub data Members : Type 0 where
    no_member : Members
    member : Text → Json → Members → Members

  pub data Items : Type 0 where
    no_item : Items
    item : Json → Items → Items

abbrev pub is_container : Json → Bool
is_container (object members) = true
is_container (array items) = true
is_container _ = false

-- `std::string(indent * 2, ' ')`.
abbrev pub pad : ℕ → Text
pad indent = replicate (indent * 2) b' '

abbrev pub line : Text → Text
line t = t ++ b'\n' ∷ []

module _ (double_text : Double → Text) where
  unfoldable pub number_text : Double → Option ℤ → Text
  number_text d none = double_text d
  number_text d (some n) = decimal_ℤ n

  unfoldable pub scalar_to_string : Json → Text
  scalar_to_string null = text "\"\""
  scalar_to_string (string s) = s
  scalar_to_string (number d) = number_text d (as_integer d)
  scalar_to_string (boolean true) = text "true"
  scalar_to_string (boolean false) = text "false"
  scalar_to_string _ = text "[complex]"

  -- elementToLines, its loops over members and items, and one round of them.
  unfoldable mutual
    pub element_to_lines : Json → ℕ → Text
    element_to_lines (object members) indent = member_lines members indent
    element_to_lines (array items) indent = item_lines items indent 0
    element_to_lines el indent = line (pad indent ++ scalar_to_string el)

    pub entry_lines : Text → Json → ℕ → Text
    entry_lines start (object members) indent =
        line (start ++ text ":") ++ member_lines members (suc indent)
    entry_lines start (array items) indent =
        line (start ++ text ":") ++ item_lines items (suc indent) 0
    entry_lines start val indent = line (start ++ text ": " ++ scalar_to_string val)

    pub member_lines : Members → ℕ → Text
    member_lines no_member indent = []
    member_lines (member key val members) indent =
        entry_lines (pad indent ++ key) val indent ++ member_lines members indent

    pub item_lines : Items → ℕ → ℕ → Text
    item_lines no_item indent idx = []
    item_lines (item val items) indent idx =
        entry_lines (pad indent ++ (b'[' ∷ decimal idx ++ text "]")) val indent
        ++ item_lines items indent (suc idx)

  -- parseDescriptionJson; `read_json` is glz::read_json, the text of its error or the value.
  unfoldable pub parsed_text : Text ⊎ Json → Text
  parsed_text (inl error) = text "json_error: " ++ error
  parsed_text (inr doc) = element_to_lines doc 0

  unfoldable pub parse_description_json : (Text → Text ⊎ Json) → Text → Text
  parse_description_json read_json [] = text "<empty>"
  parse_description_json read_json (c ∷ json) = parsed_text (read_json (c ∷ json))
