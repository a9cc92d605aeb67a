-- ===== src/Printing/Hexdump.antt =====
-- src/bluez/hexdump.hpp, CustomHexdump<RowSize, ShowAscii>: the stream insertion, with its loops over the
-- offsets. The saver restores the flags of the stream, so that std::hex does not outlive the dump.
pub mod Rows
use sdbus_cpp_examples.Prelude.{
  ℕ, zero, suc, ◌+◌, ◌-◌, ◌&&◌, Bool, Option, none, some, List, [], ◌∷◌, ◌++◌, if◌then◌else◌, ltb,
  leb, length, get_elem?, replicate,
}
use sdbus_cpp_examples.Prelude.Text.{Text, text}
use sdbus_cpp_examples.Prelude.Decimal.{hexadecimal, hex_byte}

-- std::isprint of the C locale.
abbrev pub is_print : ℕ → Bool
is_print c = leb 32 c && leb c 126

-- `dump.mData[i + j]`, if `i + j < dump.mLength`.
abbrev pub hex_cell : Option ℕ → Text
hex_cell none = text "   "
hex_cell (some b) = hex_byte b ++ b' ' ∷ []

abbrev pub ascii_cell : Option ℕ → Text
ascii_cell none = []
ascii_cell (some b) = (if is_print b then b else b'.') ∷ []

-- The loops over `j`: `n` rounds, from the position `i + j` on.
unfoldable pub hex_cells : List ℕ → ℕ → ℕ → Text
hex_cells bytes position zero = []
hex_cells bytes position (suc n) =
    hex_cell (get_elem? bytes position) ++ hex_cells bytes (suc position) n

unfoldable pub ascii_cells : List ℕ → ℕ → ℕ → Text
ascii_cells bytes position zero = []
ascii_cells bytes position (suc n) =
    ascii_cell (get_elem? bytes position) ++ ascii_cells bytes (suc position) n

-- `std::setw(6) << std::hex << i` with fill '0'.
unfoldable pub offset_text : ℕ → Text
offset_text i = replicate (6 - length (hexadecimal i)) b'0' ++ hexadecimal i

-- `if (ShowAscii)`.
abbrev pub ascii_part : Bool → Text → Text
ascii_part show_ascii shown = if show_ascii then shown else []

module _ (row_size : ℕ) (show_ascii : Bool) where
  unfoldable pub row : List ℕ → ℕ → Text
  row bytes i =
      (text "0x" ++ offset_text i ++ text ": ")
      ++ (hex_cells bytes i row_size
          ++ (b' ' ∷ ascii_part show_ascii (ascii_cells bytes i row_size) ++ b'\n' ∷ []))

  -- The loop over `i`, in at most `fuel` rounds.
  unfoldable pub rows : List ℕ → ℕ → ℕ → Text
  rows bytes zero i = []
  rows bytes (suc fuel) i =
      let rest = rows bytes fuel (i + row_size) in
      if ltb i (length bytes) then row bytes i ++ rest else []

  -- No dump has more rows than bytes.
  unfoldable pub hexdump : List ℕ → Text
  hexdump bytes = rows bytes (length bytes) 0
