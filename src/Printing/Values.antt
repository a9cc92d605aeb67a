-- ===== src/Printing/Values.antt =====
-- The D-Bus values whose types stand in Utils::type_map_ of src/utils/utils.cc, and one constructor
-- for all others. A value's type, `peekValueType()`, is given by its constructor, so that the
-- `get<T>()` of the handler that is found under that type does not throw. A double is its 64 bits.
use sdbus_cpp_examples.Prelude.{ℕ, Bool, List}
use sdbus_cpp_examples.Prelude.Text.{Text, text}
use sdbus_cpp_examples.Prelude.Int.{ℤ}

mutual
  pub data Variant : Type 0 where
    double uint32 uint16 uint64 uint8 : ℕ → Variant
    int16 int32 int64 : ℤ → Variant
    boolean : Bool → Variant
    object_path string : Text → Variant
    object_paths strings : List Text → Variant
    uint32s bytes : List ℕ → Variant
    uint32_lists byte_lists : List (List ℕ) → Variant
    numbered : Numbered → Variant
    fields : Fields → Variant
    named_fields : NamedFields → Variant
    field_lists : FieldLists → Variant
    qqy : ℕ × ℕ × ℕ → Variant
    qqys : List (ℕ × ℕ × ℕ) → Variant
    ayuays : List (List ℕ × ℕ × List ℕ) → Variant
    ayuayus : List (List ℕ × ℕ × List ℕ × ℕ) → Variant
    tt_pair : ℕ × ℕ → Variant
    ttt : ℕ × ℕ × ℕ → Variant
    tttt : ℕ × ℕ × ℕ × ℕ → Variant
    so : Text × Text → Variant
    sos : List (Text × Text) → Variant
    st : Text × ℕ → Variant
    uo : ℕ × Text → Variant
    isbs : List (ℤ × Text × Bool) → Variant
    iiay : ℤ × ℤ × List ℕ → Variant
    iiays : List (ℤ × ℤ × List ℕ) → Variant
    iiayqs : ℤ × ℤ × List ℕ × ℕ × Text → Variant
    iiayqss : List (ℤ × ℤ × List ℕ × ℕ × Text) → Variant
    other : Text → Variant

  -- std::map<std::uint16_t, sdbus::Variant>
  pub data Numbered : Type 0 where
    no_number : Numbered
    number : ℕ → Variant → Numbered → Numbered

  -- std::map<std::string, sdbus::Variant>
  pub data Fields : Type 0 where
    no_field : Fields
    field : Text → Variant → Fields → Fields

  pub data NamedFields : Type 0 where
    no_name : NamedFields
    name : Text → Fields → NamedFields → NamedFields

  pub data FieldLists : Type 0 where
    no_list : FieldLists
    one : Fields → FieldLists → FieldLists

-- The type of a value, the key of type_map_.
abbrev pub peek_value_type : Variant → Text
peek_value_type (uint32 x) = text "u"
peek_value_type (double x) = text "d"
peek_value_type (int16 x) = text "n"
peek_value_type (object_path x) = text "o"
peek_value_type (object_paths x) = text "ao"
peek_value_type (int32 x) = text "i"
peek_value_type (boolean x) = text "b"
peek_value_type (uint8 x) = text "y"
peek_value_type (uint16 x) = text "q"
peek_value_type (string x) = text "s"
peek_value_type (int64 x) = text "x"
peek_value_type (uint64 x) = text "t"
peek_value_type (strings x) = text "as"
peek_value_type (uint32s x) = text "au"
peek_value_type (uint32_lists x) = text "aau"
peek_value_type (bytes x) = text "ay"
peek_value_type (byte_lists x) = text "aay"
peek_value_type (numbered x) = text "a{qv}"
peek_value_type (fields x) = text "a{sv}"
peek_value_type (named_fields x) = text "a(sa{sv})"
peek_value_type (qqy x) = text "(qqy)"
peek_value_type (qqys x) = text "a(qqy)"
peek_value_type (ayuays x) = text "a(ayuay)"
peek_value_type (ayuayus x) = text "a(ayuayu)"
peek_value_type (field_lists x) = text "aa{sv}"
peek_value_type (tt_pair x) = text "(tt)"
peek_value_type (ttt x) = text "(ttt)"
peek_value_type (tttt x) = text "(tttt)"
peek_value_type (so x) = text "(so)"
peek_value_type (st x) = text "(st)"
peek_value_type (uo x) = text "(uo)"
peek_value_type (isbs x) = text "a(isb)"
peek_value_type (iiay x) = text "(iiay)"
peek_value_type (iiays x) = text "a(iiay)"
peek_value_type (iiayqs x) = text "(iiayqs)"
peek_value_type (iiayqss x) = text "a(iiayqs)"
peek_value_type (sos x) = text "a(so)"
peek_value_type (other t) = t
