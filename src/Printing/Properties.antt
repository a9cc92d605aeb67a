-- ===== src/Printing/Properties.antt =====
-- src/utils/utils.cc: append_property with the handlers of type_map_, append_properties and
-- print_changed_properties. `double_text` is std::to_string of the double with the given bits.
pub mod Flags
pub mod Bytes
use sdbus_cpp_examples.Prelude.{ℕ, Bool, true, false, List, [], ◌∷◌, ◌++◌, if◌then◌else◌}
use sdbus_cpp_examples.Prelude.Text.{Text, text, text_eq}
use sdbus_cpp_examples.Prelude.Int.{ℤ}
use sdbus_cpp_examples.Prelude.Decimal.{decimal, decimal_ℤ}
use sdbus_cpp_examples.Printing.Values
use sdbus_cpp_examples.Printing.Values.{Variant, Numbered, Fields, NamedFields, FieldLists}
use sdbus_cpp_examples.Printing.Streams.{
  Stream, Writes, ◌>>◌, idle, put, endl, tab, put_number, put_int32, put_char, put_bytes, for_each,
  colon, comma, if_empty, new_stream,
}

abbrev pub bool_text : Bool → Text
bool_text true = text "True"
bool_text false = text "False"

abbrev pub string_text : Text → Text
string_text [] = text "\"\""
string_text (c ∷ s) = c ∷ s

-- The tuples of src/utils/utils.cc that are written alike in a list and alone.
unfoldable pub put_qqy : ℕ × ℕ × ℕ → Writes
put_qqy (a, b, c) = tab >> put_number a >> colon >> put_number b >> colon >> put_char c

unfoldable pub put_so : Text × Text → Writes
put_so (a, b) = tab >> put a >> colon >> put b

unfoldable pub put_isb : ℤ × Text × Bool → Writes
put_isb (a, b, c) = tab >> put_int32 a >> colon >> put b >> colon >> put (bool_text c)

unfoldable pub put_iiay : ℤ × ℤ × List ℕ → Writes
put_iiay (a, b, bytes) = tab >> put_int32 a >> colon >> put_int32 b >> colon >> put_bytes bytes

unfoldable pub put_iiayqs : ℤ × ℤ × List ℕ × ℕ × Text → Writes
put_iiayqs (a, b, bytes, port, name) =
    tab
    >> put_int32 a
    >> comma
    >> put_int32 b
    >> comma
    >> put_bytes bytes
    >> comma
    >> put_number port
    >> comma
    >> put name

unfoldable pub put_ayuay : List ℕ × ℕ × List ℕ → Writes
put_ayuay (a, n, b) = tab >> put_bytes a >> comma >> put (decimal n) >> comma >> put_bytes b >> endl

unfoldable pub put_ayuayu : List ℕ × ℕ × List ℕ × ℕ → Writes
put_ayuayu (a, n, b, m) =
    tab
    >> put_bytes a
    >> comma
    >> put (decimal n)
    >> comma
    >> put_bytes b
    >> comma
    >> put (decimal m)
    >> endl

abbrev pub put_line : Text → Writes
put_line t = tab >> put t >> endl

abbrev pub put_type : Variant → Writes
put_type v = put (b'[' ∷ Values.peek_value_type v ++ text "] ")

module _ (double_text : ℕ → Text) where
  -- The handler of a value; those of maps call append_property again, which is written out.
  unfoldable mutual
    -- The handler that type_map_ has for the type, or "Unknown type".
    pub handler : Variant → Writes
    handler (Values.uint32 n) = put (decimal n) >> endl
    handler (Values.double x) = put (double_text x) >> endl
    handler (Values.int16 n) = put (decimal_ℤ n) >> endl
    handler (Values.object_path p) = put p >> endl
    handler (Values.object_paths ps) = for_each (λ p. put p >> endl) ps
    handler (Values.int32 n) = put (decimal_ℤ n) >> endl
    handler (Values.boolean b) = put (bool_text b) >> endl
    handler (Values.uint8 n) = put (decimal n) >> endl
    handler (Values.uint16 n) = put (decimal n) >> endl
    handler (Values.string s) = put (string_text s) >> endl
    handler (Values.int64 n) = put (decimal_ℤ n) >> endl
    handler (Values.uint64 n) = put (decimal n) >> endl
    handler (Values.strings xs) = endl >> for_each put_line xs >> if_empty xs idle
    handler (Values.uint32s xs) =
        endl >> for_each (λ n. put_line (decimal n)) xs >> if_empty xs endl
    handler (Values.uint32_lists xs) =
        endl >> for_each (λ ns. for_each (λ n. put_line (decimal n)) ns) xs >> if_empty xs endl
    handler (Values.bytes xs) = put_bytes xs >> if_empty xs endl
    handler (Values.byte_lists xs) = for_each put_bytes xs >> if_empty xs endl
    handler (Values.numbered ns) = endl >> append_numbered ns
    handler (Values.fields fs) = endl >> append_fields tab fs
    handler (Values.named_fields ns) = endl >> append_named ns
    handler (Values.field_lists ls) = endl >> append_lists ls
    handler (Values.qqy x) = endl >> put_qqy x
    handler (Values.qqys xs) = endl >> for_each (λ x. put_qqy x >> endl) xs
    handler (Values.ayuays xs) = endl >> for_each put_ayuay xs
    handler (Values.ayuayus xs) = endl >> for_each put_ayuayu xs
    handler (Values.tt_pair (a, b)) = endl >> tab >> put_number a >> colon >> put_number b
    handler (Values.ttt (a, b, c)) =
        endl >> tab >> put_number a >> colon >> put_number b >> colon >> put_number c
    handler (Values.tttt (a, b, c, d)) =
        endl
        >> tab
        >> put_number a
        >> colon
        >> put_number b
        >> colon
        >> put_number c
        >> colon
        >> put_number d
    handler (Values.so x) = endl >> put_so x
    handler (Values.st (a, b)) = endl >> tab >> put a >> colon >> put_number b
    handler (Values.uo (a, b)) = endl >> tab >> put_number a >> colon >> put b
    handler (Values.isbs xs) = endl >> for_each put_isb xs
    handler (Values.iiay x) = endl >> put_iiay x
    handler (Values.iiays xs) = endl >> for_each put_iiay xs
    handler (Values.iiayqs x) = endl >> put_iiayqs x
    handler (Values.iiayqss xs) = endl >> for_each put_iiayqs xs
    handler (Values.sos xs) = endl >> for_each put_so xs
    handler (Values.other t) = put (text "Unknown type: " ++ t) >> endl

    pub append_numbered : Numbered → Writes
    append_numbered Values.no_number = idle
    append_numbered (Values.number key v ns) =
        tab >> put_number key >> colon >> put_type v >> handler v >> append_numbered ns

    pub append_fields : Writes → Fields → Writes
    append_fields start Values.no_field = idle
    append_fields start (Values.field key v fs) =
        start >> put key >> colon >> put_type v >> handler v >> append_fields start fs

    pub append_named : NamedFields → Writes
    append_named Values.no_name = idle
    append_named (Values.name key fs ns) =
        tab >> put key >> colon >> append_fields idle fs >> append_named ns

    pub append_lists : FieldLists → Writes
    append_lists Values.no_list = idle
    append_lists (Values.one fs ls) = append_fields tab fs >> append_lists ls

  -- Utils::append_property.
  unfoldable pub append_property : Variant → Writes
  append_property v = put_type v >> handler v

  -- Utils::append_properties, both overloads.
  unfoldable pub append_properties : List (Text × Variant) → Writes
  append_properties [] = idle
  append_properties ((key, value) ∷ props) =
      put (text "  ") >> put key >> colon >> append_property value >> append_properties props

  -- The text that Utils::print_changed_properties logs.
  unfoldable pub print_changed_properties : Text → List (Text × Variant) → List Text → Text
  print_changed_properties interface changed invalidated =
      ((endl
          >> put (b'[' ∷ interface ++ text "] Properties changed")
          >> endl
          >> append_properties changed
          >> for_each
              (λ name. put (b'[' ∷ interface ++ text "] Invalidated property: " ++ name) >> endl)
              invalidated)
        new_stream).out

-- Utils::isServicePresent.
unfoldable pub is_service_present : List Text → Text → Bool
is_service_present [] service = false
is_service_present (name ∷ names) service =
    if text_eq name service then true else is_service_present names service
