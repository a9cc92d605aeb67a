-- ===== src/Printing/Hexdump/Rows.antt =====
-- The dump is the one of the bytes taken a row at a time.
use mathlib.Core.Path.{ap₂}
use native.Mathlib.Nat.{lt-mul-div-succ, mul-le-mul_right}
use sdbus_cpp_examples.Prelude.{
  Bool, ℕ, zero, suc, ◌+◌, ◌-◌, ◌*◌, ◌/◌, ◌≤◌, ◌≡◌, refl, sym, ap, ◌∙◌, Option, none, some, List,
  [], ◌∷◌, ◌++◌, if◌then◌else◌, if_rule, ltb, length, get_elem?, take, drop, length-drop, arith,
}
use sdbus_cpp_examples.Prelude.Text.{Text, text}
use sdbus_cpp_examples.Prelude.Decimal.{hex_byte}
use sdbus_cpp_examples.Printing.Hexdump.{
  ascii_part, hex_cell, ascii_cell, hex_cells, ascii_cells, offset_text, row, rows, hexdump,
  is_print,
}

-- Every byte in two digits, and blanks up to the width of the row.
abbrev pub hex_text : List ℕ → Text
hex_text [] = []
hex_text (b ∷ bytes) = hex_byte b ++ b' ' ∷ hex_text bytes

abbrev pub blanks : ℕ → Text
blanks zero = []
blanks (suc n) = text "   " ++ blanks n

abbrev pub ascii_text : List ℕ → Text
ascii_text [] = []
ascii_text (b ∷ bytes) = (if is_print b then b else b'.') ∷ ascii_text bytes

abbrev head? : List ℕ → Option ℕ
head? [] = none
head? (x ∷ xs) = some x

get_elem?-drop : (xs : List ℕ) (i : ℕ) → get_elem? xs i ≡ head? (drop i xs)
get_elem?-drop [] zero = refl
get_elem?-drop [] (suc i) = refl
get_elem?-drop (x ∷ xs) zero = refl
get_elem?-drop (x ∷ xs) (suc i) = get_elem?-drop xs i

drop-suc : (xs : List ℕ) (i : ℕ) → drop (suc i) xs ≡ drop 1 (drop i xs)
drop-suc [] zero = refl
drop-suc [] (suc i) = refl
drop-suc (x ∷ xs) zero = refl
drop-suc (x ∷ xs) (suc i) = drop-suc xs i

-- The cells of the bytes that are left.
abbrev cells : (Option ℕ → Text) → List ℕ → ℕ → Text
cells cell rest zero = []
cells cell rest (suc n) = cell (head? rest) ++ cells cell (drop 1 rest) n

hex_cells-drop : (bytes : List ℕ) (i n : ℕ) → hex_cells bytes i n ≡ cells hex_cell (drop i bytes) n
unfolding hex_cells
hex_cells-drop bytes i zero = refl
hex_cells-drop bytes i (suc n) =
    ap₂ ◌++◌ (ap hex_cell (get_elem?-drop bytes i))
      (hex_cells-drop bytes (suc i) n ∙ ap (λ r. cells hex_cell r n) (drop-suc bytes i))

ascii_cells-drop :
    (bytes : List ℕ) (i n : ℕ) → ascii_cells bytes i n ≡ cells ascii_cell (drop i bytes) n
unfolding ascii_cells
ascii_cells-drop bytes i zero = refl
ascii_cells-drop bytes i (suc n) =
    ap₂ ◌++◌ (ap ascii_cell (get_elem?-drop bytes i))
      (ascii_cells-drop bytes (suc i) n ∙ ap (λ r. cells ascii_cell r n) (drop-suc bytes i))

cells-blanks : (n : ℕ) → cells hex_cell [] n ≡ blanks n
cells-blanks zero = refl
cells-blanks (suc n) = ap (λ t. text "   " ++ t) (cells-blanks n)

cells-hex_text :
    (rest : List ℕ) (n : ℕ)
    → cells hex_cell rest n ≡ hex_text (take n rest) ++ blanks (n - length (take n rest))
cells-hex_text rest zero = refl
cells-hex_text [] (suc n) =
    let e : suc n ≡ suc n - 0 = omega arith in cells-blanks (suc n) ∙ ap blanks e
cells-hex_text (b ∷ rest) (suc n) =
    let e : n - length (take n rest) ≡ suc n - suc (length (take n rest)) = omega arith in
    ap (λ t. hex_byte b ++ b' ' ∷ t)
      (cells-hex_text rest n ∙ ap (λ k. hex_text (take n rest) ++ blanks k) e)

cells-no_ascii : (n : ℕ) → cells ascii_cell [] n ≡ []
cells-no_ascii zero = refl
cells-no_ascii (suc n) = cells-no_ascii n

cells-ascii_text : (rest : List ℕ) (n : ℕ) → cells ascii_cell rest n ≡ ascii_text (take n rest)
cells-ascii_text rest zero = refl
cells-ascii_text [] (suc n) = cells-no_ascii n
cells-ascii_text (b ∷ rest) (suc n) =
    ap (◌∷◌ (if is_print b then b else b'.')) (cells-ascii_text rest n)

drop_add : (xs : List ℕ) (i k : ℕ) → drop (i + k) xs ≡ drop k (drop i xs)
drop_add xs zero k = let e : zero + k ≡ k = omega arith in ap (λ n. drop n xs) e
drop_add [] (suc i) zero = let e : suc i + 0 ≡ suc i = omega arith in ap (λ n. drop n []) e
drop_add [] (suc i) (suc k) =
    let e : suc i + suc k ≡ suc (i + suc k) = omega arith in ap (λ n. drop n []) e
drop_add (x ∷ xs) (suc i) k =
    let e : suc i + k ≡ suc (i + k) = omega arith in ap (λ n. drop n (x ∷ xs)) e ∙ drop_add xs i k

module _ (row_size : ℕ) (show_ascii : Bool) where
  abbrev pub line_of : ℕ → List ℕ → Text
  line_of offset chunk =
      (text "0x" ++ offset_text offset ++ text ": ")
      ++ ((hex_text chunk ++ blanks (row_size - length chunk))
          ++ (b' ' ∷ ascii_part show_ascii (ascii_text chunk) ++ b'\n' ∷ []))

  -- The dump by its chunks: `n` of them are left, the last may be short.
  abbrev pub lines_of : ℕ → ℕ → List ℕ → Text
  lines_of zero offset rest = []
  lines_of (suc n) offset [] = []
  lines_of (suc n) offset (b ∷ rest) =
      line_of offset (take row_size (b ∷ rest))
      ++ lines_of n (offset + row_size) (drop row_size (b ∷ rest))

  row-line_of :
      (bytes : List ℕ) (i : ℕ)
      → row row_size show_ascii bytes i ≡ line_of i (take row_size (drop i bytes))
  unfolding row
  row-line_of bytes i =
      ap₂
        (λ h a.
          (text "0x" ++ offset_text i ++ text ": ")
          ++ (h ++ (b' ' ∷ ascii_part show_ascii a ++ b'\n' ∷ [])))
        (hex_cells-drop bytes i row_size ∙ cells-hex_text (drop i bytes) row_size)
        (ascii_cells-drop bytes i row_size ∙ cells-ascii_text (drop i bytes) row_size)

  -- One round of the loop, by what is left of the bytes.
  one_row :
      (bytes : List ℕ) (fuel i : ℕ) (rest : List ℕ)
      → drop i bytes ≡ rest
      → rows row_size show_ascii bytes fuel (i + row_size)
        ≡ lines_of fuel (i + row_size) (drop row_size rest)
      → rows row_size show_ascii bytes (suc fuel) i ≡ lines_of (suc fuel) i rest
  unfolding rows
  one_row bytes fuel i [] h ih = ground (arith, length-drop i bytes, ap length h)
  one_row bytes fuel i (b ∷ rest) h ih =
      if_rule (λ (t : Text). t ≡ lines_of (suc fuel) i (b ∷ rest)) (ltb i (length bytes)) _ _
        (λ _. ap₂ ◌++◌ (row-line_of bytes i ∙ ap (λ r. line_of i (take row_size r)) h) ih)
        (λ e. absurd (ground (arith, length-drop i bytes, ap length h)))

  rows-lines_of :
      (bytes : List ℕ) (fuel i : ℕ)
      → rows row_size show_ascii bytes fuel i ≡ lines_of fuel i (drop i bytes)
  unfolding rows
  rows-lines_of bytes zero i = refl
  rows-lines_of bytes (suc fuel) i = one_row bytes fuel i (drop i bytes) refl (
      rows-lines_of bytes fuel (i + row_size)
      ∙ ap (lines_of fuel (i + row_size)) (drop_add bytes i row_size))

  lines_of-nil : (n offset : ℕ) → lines_of n offset [] ≡ []
  lines_of-nil zero offset = refl
  lines_of-nil (suc n) offset = refl

  -- Any number of chunks that holds all bytes gives the same dump.
  lines_of-enough :
      (n m offset : ℕ) (rest : List ℕ)
      → length rest ≤ row_size * n
      → length rest ≤ row_size * m
      → lines_of n offset rest ≡ lines_of m offset rest
  lines_of-enough n m offset [] h k = lines_of-nil n offset ∙ sym (lines_of-nil m offset)
  lines_of-enough zero m offset (b ∷ rest) h k = absurd (omega arith)
  lines_of-enough (suc n) zero offset (b ∷ rest) h k = absurd (omega arith)
  lines_of-enough (suc n) (suc m) offset (b ∷ rest) h k =
      ap (λ t. line_of offset (take row_size (b ∷ rest)) ++ t)
        (lines_of-enough n m (offset + row_size) (drop row_size (b ∷ rest))
          (omega (arith, length-drop row_size (b ∷ rest)))
          (omega (arith, length-drop row_size (b ∷ rest))))

  -- The dump of any bytes in rows of at least one has a line for each row's worth of them, the last
  -- line for what is left: the line's offset, each byte in two digits, blanks up to the width of the
  -- row, and, if it is asked for, each byte as a character, or as a dot if it is not printable.
  pub hexdump-lines_of :
      (bytes : List ℕ)
      → 1 ≤ row_size
      → hexdump row_size show_ascii bytes
        ≡ lines_of ((length bytes + (row_size - 1)) / row_size) 0 bytes
  unfolding hexdump
  hexdump-lines_of bytes h =
      rows-lines_of bytes (length bytes) 0
      ∙ lines_of-enough (length bytes) ((length bytes + (row_size - 1)) / row_size) 0 bytes
          (omega (arith, mul-le-mul_right (length bytes) h))
          (omega (arith, lt-mul-div-succ (length bytes + (row_size - 1)) {b = row_size} h))
