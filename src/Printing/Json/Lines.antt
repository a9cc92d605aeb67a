-- ===== src/Printing/Json/Lines.antt =====
-- How many lines elementToLines writes.
use sdbus_cpp_examples.Prelude.{
  ℕ, zero, suc, ◌+◌, ◌*◌, ◌/◌, ◌%◌, ◌≡◌, refl, true, false, Option, none, some, [], ◌∷◌, ◌++◌,
  replicate, count, count-nil, count-append, arith, if◌then◌else◌,
}
use sdbus_cpp_examples.Prelude.Text.{Text, text}
use sdbus_cpp_examples.Prelude.Int.{ℤ, pos, negsuc}
use sdbus_cpp_examples.Prelude.Decimal.{decimal, decimal_ℤ, digits, digit}
use sdbus_cpp_examples.Printing.Json.{
  Double, as_integer, Json, Members, Items, null, string, number, boolean, object, array, no_member,
  member, no_item, item, is_container, pad, line, number_text, scalar_to_string, element_to_lines,
  entry_lines, member_lines, item_lines,
}

-- The elements below a value.
unfoldable mutual
  pub elements : Json → ℕ
  elements (object members) = member_elements members
  elements (array items) = item_elements items
  elements _ = 0

  pub member_elements : Members → ℕ
  member_elements no_member = 0
  member_elements (member key val members) = suc (elements val) + member_elements members

  pub item_elements : Items → ℕ
  item_elements no_item = 0
  item_elements (item val items) = suc (elements val) + item_elements items

abbrev pub newlines : Text → ℕ
newlines t = count b'\n' t

-- No key and no string holds a line break.
unfoldable mutual
  pub OneLine : Json → Type 0
  OneLine (string s) = newlines s ≡ 0
  OneLine (object members) = MembersOneLine members
  OneLine (array items) = ItemsOneLine items
  OneLine _ = Unit

  pub MembersOneLine : Members → Type 0
  MembersOneLine no_member = Unit
  MembersOneLine (member key val members) =
      (newlines key ≡ 0) × (OneLine val × MembersOneLine members)

  pub ItemsOneLine : Items → Type 0
  ItemsOneLine no_item = Unit
  ItemsOneLine (item val items) = OneLine val × ItemsOneLine items

newlines-replicate : (n : ℕ) → newlines (replicate n b' ') ≡ 0
unfolding count
newlines-replicate zero = refl
newlines-replicate (suc n) = omega (arith, newlines-replicate n)

newlines-digit : (d : ℕ) → newlines (digit d ∷ []) ≡ 0
unfolding count
newlines-digit d = ground arith

newlines-digits : (base fuel n : ℕ) → newlines (digits base fuel n) ≡ 0
unfolding digits
newlines-digits base zero n = count-nil b'\n'
newlines-digits base (suc fuel) n = ground (
  arith,
  newlines-digit n,
  newlines-digits base fuel (n / base),
  newlines-digit (n % base),
  count-append b'\n' (digits base fuel (n / base)) (digit (n % base) ∷ []),
)

newlines-append : (s t : Text) → newlines (s ++ t) ≡ newlines s + newlines t
newlines-append s t = count-append b'\n' s t

newlines-line : (t : Text) → newlines t ≡ 0 → newlines (line t) ≡ 1
unfolding count
newlines-line t h = omega (arith, newlines-append t (b'\n' ∷ []), h)

newlines-decimal_ℤ : (n : ℤ) → newlines (decimal_ℤ n) ≡ 0
unfolding count
newlines-decimal_ℤ (pos n) = newlines-digits 10 20 n
newlines-decimal_ℤ (negsuc n) = omega (arith, newlines-digits 10 20 (suc n))

module _ (double_text : Double → Text)
    (one_line : (d : Double) → newlines (double_text d) ≡ 0) where
  newlines-number_text : (d : Double) (o : Option ℤ) → newlines (number_text double_text d o) ≡ 0
  unfolding number_text
  newlines-number_text d none = one_line d
  newlines-number_text d (some n) = newlines-decimal_ℤ n

  newlines-scalar : (el : Json) → OneLine el → newlines (scalar_to_string double_text el) ≡ 0
  unfolding scalar_to_string OneLine count
  newlines-scalar null h = refl
  newlines-scalar (string s) h = h
  newlines-scalar (number d) h = newlines-number_text d (as_integer d)
  newlines-scalar (boolean true) h = refl
  newlines-scalar (boolean false) h = refl
  newlines-scalar (object members) h = refl
  newlines-scalar (array items) h = refl

  newlines-start : (indent : ℕ) (t : Text) → newlines t ≡ 0 → newlines (pad indent ++ t) ≡ 0
  newlines-start indent t h =
      omega (arith, newlines-append (pad indent) t, newlines-replicate (indent * 2), h)

  alone :
      (el : Json) (indent : ℕ)
      → OneLine el
      → newlines (line (pad indent ++ scalar_to_string double_text el)) ≡ 1
  alone el indent h =
      newlines-line _
        (newlines-start indent (scalar_to_string double_text el) (newlines-scalar el h))

  -- A key and a scalar, or a key and what follows on lines of its own.
  scalar_entry :
      (start : Text) (el : Json)
      → newlines start ≡ 0
      → OneLine el
      → newlines (line (start ++ text ": " ++ scalar_to_string double_text el)) ≡ 1
  unfolding count
  scalar_entry start el h k = newlines-line _ (
      omega (
        arith,
        newlines-append start (text ": "),
        newlines-append (start ++ text ": ") (scalar_to_string double_text el),
        newlines-scalar el k,
        h,
      ))

  container_entry :
      (start rest : Text) (n : ℕ)
      → newlines start ≡ 0
      → newlines rest ≡ n
      → newlines (line (start ++ text ":") ++ rest) ≡ suc n
  unfolding count
  container_entry start rest n h k = omega (
    arith,
    newlines-append (line (start ++ text ":")) rest,
    newlines-line (start ++ text ":") (omega (arith, newlines-append start (text ":"), h)),
    k,
  )

  index : ℕ → ℕ → Text
  index indent idx = pad indent ++ (b'[' ∷ decimal idx ++ text "]")

  newlines-index : (indent idx : ℕ) → newlines (index indent idx) ≡ 0
  unfolding index count
  newlines-index indent idx =
      newlines-start indent (b'[' ∷ decimal idx ++ text "]")
        (omega (arith, newlines-digits 10 20 idx, newlines-append (decimal idx) (text "]")))

  mutual
    unfolding entry_lines elements OneLine index

    entry_lines-elements :
        (start : Text) (val : Json) (indent : ℕ)
        → newlines start ≡ 0
        → OneLine val
        → newlines (entry_lines double_text start val indent) ≡ suc (elements val)
    entry_lines-elements start (object members) indent h k =
        container_entry start _ _ h (member_lines-elements members (suc indent) k)
    entry_lines-elements start (array items) indent h k =
        container_entry start _ _ h (item_lines-elements items (suc indent) 0 k)
    entry_lines-elements start null indent h k = scalar_entry start null h k
    entry_lines-elements start (string s) indent h k = scalar_entry start (string s) h k
    entry_lines-elements start (number n) indent h k = scalar_entry start (number n) h k
    entry_lines-elements start (boolean b) indent h k = scalar_entry start (boolean b) h k

    member_lines-elements :
        (members : Members) (indent : ℕ)
        → MembersOneLine members
        → newlines (member_lines double_text members indent) ≡ member_elements members
    member_lines-elements no_member indent k = count-nil b'\n'
    member_lines-elements (member key val members) indent (h, (k, r)) = omega (
      arith,
      newlines-append (entry_lines double_text (pad indent ++ key) val indent)
          (member_lines double_text members indent),
      entry_lines-elements (pad indent ++ key) val indent (newlines-start indent key h) k,
      member_lines-elements members indent r,
    )

    item_lines-elements :
        (items : Items) (indent idx : ℕ)
        → ItemsOneLine items
        → newlines (item_lines double_text items indent idx) ≡ item_elements items
    item_lines-elements no_item indent idx k = count-nil b'\n'
    item_lines-elements (item val items) indent idx (k, r) = omega (
      arith,
      newlines-append (entry_lines double_text (index indent idx) val indent)
          (item_lines double_text items indent (suc idx)),
      entry_lines-elements (index indent idx) val indent (newlines-index indent idx) k,
      item_lines-elements items indent (suc idx) r,
    )

  -- For a value whose keys and strings hold no line break, the text has one line for every element
  -- below it, at every depth, and one for a value that is neither an object nor an array; so an
  -- empty object has none.
  pub element_to_lines-elements :
      (el : Json) (indent : ℕ)
      → OneLine el
      → newlines (element_to_lines double_text el indent)
        ≡ (if is_container el then elements el else 1)
  unfolding element_to_lines elements OneLine
  element_to_lines-elements (object members) indent h = member_lines-elements members indent h
  element_to_lines-elements (array items) indent h = item_lines-elements items indent 0 h
  element_to_lines-elements null indent h = alone null indent h
  element_to_lines-elements (string s) indent h = alone (string s) indent h
  element_to_lines-elements (number n) indent h = alone (number n) indent h
  element_to_lines-elements (boolean b) indent h = alone (boolean b) indent h
