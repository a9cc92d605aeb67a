-- ===== src/Printing/Properties/Flags.antt =====
-- Which values leave std::hex set on the stream: the bytes that are written in hexadecimal set it,
-- and nothing clears it.
pub mod Flagging
use sdbus_cpp_examples.Prelude.{
  ℕ, ◌≡◌, refl, Bool, false, ◌||◌, not, List, [], ◌∷◌, is_empty, arith,
}
use sdbus_cpp_examples.Prelude.Text.{Text}
use sdbus_cpp_examples.Prelude.Decimal.{decimal}
use sdbus_cpp_examples.Prelude.Int.{ℤ}
use sdbus_cpp_examples.Printing.Values
use sdbus_cpp_examples.Printing.Values.{Variant, Numbered, Fields, NamedFields, FieldLists}
use sdbus_cpp_examples.Printing.Streams.{
  Stream, Writes, ◌>>◌, idle, put, endl, tab, put_number, put_int32, put_char, put_bytes, put_byte,
  set_hex, for_each, comma, if_empty,
}
use sdbus_cpp_examples.Printing.Properties.{
  append_property, handler, append_numbered, append_fields, append_named, append_lists,
  append_properties, put_qqy, put_so, put_isb, put_iiay, put_iiayqs, put_ayuay, put_ayuayu,
  put_line,
}
use sdbus_cpp_examples.Printing.Properties.Flags.Flagging.{
  some_byte, any, Sets, for_each-Sets, for_each_plain, put_bytes-Sets, put_iiay-Sets,
  put_iiayqs-Sets, put_ayuay-Sets, put_ayuayu-Sets, if_empty-Sets, after, still, clear, plain_line,
}

-- Whether a byte of the value is written in hexadecimal.
unfoldable mutual
  pub writes_bytes : Variant → Bool
  writes_bytes (Values.bytes xs) = some_byte xs
  writes_bytes (Values.byte_lists xs) = any some_byte xs
  writes_bytes (Values.numbered ns) = numbered_bytes ns
  writes_bytes (Values.fields fs) = fields_bytes fs
  writes_bytes (Values.named_fields ns) = named_bytes ns
  writes_bytes (Values.field_lists ls) = lists_bytes ls
  writes_bytes (Values.ayuays xs) = any (λ (a, n, b). some_byte a || some_byte b) xs
  writes_bytes (Values.ayuayus xs) = any (λ (a, n, b, m). some_byte a || some_byte b) xs
  writes_bytes (Values.iiay (a, b, bytes)) = some_byte bytes
  writes_bytes (Values.iiays xs) = any (λ (a, b, bytes). some_byte bytes) xs
  writes_bytes (Values.iiayqs (a, b, bytes, port, name)) = some_byte bytes
  writes_bytes (Values.iiayqss xs) = any (λ (a, b, bytes, port, name). some_byte bytes) xs
  writes_bytes _ = false

  pub numbered_bytes : Numbered → Bool
  numbered_bytes Values.no_number = false
  numbered_bytes (Values.number key v ns) = writes_bytes v || numbered_bytes ns

  pub fields_bytes : Fields → Bool
  fields_bytes Values.no_field = false
  fields_bytes (Values.field key v fs) = writes_bytes v || fields_bytes fs

  pub named_bytes : NamedFields → Bool
  named_bytes Values.no_name = false
  named_bytes (Values.name key fs ns) = fields_bytes fs || named_bytes ns

  pub lists_bytes : FieldLists → Bool
  lists_bytes Values.no_list = false
  lists_bytes (Values.one fs ls) = fields_bytes fs || lists_bytes ls

-- A value under its key, and the ones that follow.
entry :
    (b c : Bool) (f g : Writes) (s t : Stream)
    → t.hex ≡ s.hex
    → Sets b f
    → Sets c g
    → (g (f t)).hex ≡ (s.hex || (b || c))
entry b c f g s t e hf hg = ground (arith, e, hf t, hg (f t))

module _ (double_text : ℕ → Text) where
  mutual
    unfolding handler writes_bytes put put_number put_int32 put_char put_qqy put_so put_isb ◌>>◌

    handler-Sets : (v : Variant) → Sets (writes_bytes v) (handler double_text v)
    handler-Sets (Values.uint32 n) = still
    handler-Sets (Values.double x) = still
    handler-Sets (Values.int16 n) = still
    handler-Sets (Values.object_path p) = still
    handler-Sets (Values.object_paths ps) = for_each_plain _ (λ p. still) ps
    handler-Sets (Values.int32 n) = still
    handler-Sets (Values.boolean b) = still
    handler-Sets (Values.uint8 n) = still
    handler-Sets (Values.uint16 n) = still
    handler-Sets (Values.string t) = still
    handler-Sets (Values.int64 n) = still
    handler-Sets (Values.uint64 n) = still
    handler-Sets (Values.bytes xs) =
        after (put_bytes xs) (if_empty xs endl) (some_byte xs) (put_bytes-Sets xs)
          (if_empty-Sets xs endl still)
    handler-Sets (Values.byte_lists xs) =
        after (for_each put_bytes xs) (if_empty xs endl) (any some_byte xs)
          (for_each-Sets put_bytes some_byte put_bytes-Sets xs) (if_empty-Sets xs endl still)
    handler-Sets (Values.numbered ns) = λ s. numbered-Sets ns (endl s)
    handler-Sets (Values.qqy (a, b, c)) = λ s. still s
    handler-Sets (Values.iiay x) = λ s. put_iiay-Sets x (endl s)
    handler-Sets (Values.strings xs) = λ s.
        after (for_each put_line xs) (if_empty xs idle) false
          (for_each_plain put_line plain_line xs) (if_empty-Sets xs idle still) (endl s)
    handler-Sets (Values.uint32s xs) = λ s.
        after (for_each (λ n. put_line (decimal n)) xs) (if_empty xs endl) false
          (for_each_plain _ (λ n. plain_line (decimal n)) xs) (if_empty-Sets xs endl still) (endl s)
    handler-Sets (Values.uint32_lists xs) = λ s.
        after (for_each (λ ns. for_each (λ n. put_line (decimal n)) ns) xs) (if_empty xs endl) false
          (for_each_plain _ (for_each_plain _ (λ n. plain_line (decimal n))) xs)
          (if_empty-Sets xs endl still) (endl s)
    handler-Sets (Values.fields fs) = λ s. fields-Sets tab still fs (endl s)
    handler-Sets (Values.named_fields ns) = λ s. named-Sets ns (endl s)
    handler-Sets (Values.field_lists ls) = λ s. lists-Sets ls (endl s)
    handler-Sets (Values.qqys xs) = λ s. for_each_plain _ (λ (a, b, c) t. still t) xs (endl s)
    handler-Sets (Values.ayuays xs) = λ s. for_each-Sets put_ayuay _ put_ayuay-Sets xs (endl s)
    handler-Sets (Values.ayuayus xs) = λ s. for_each-Sets put_ayuayu _ put_ayuayu-Sets xs (endl s)
    handler-Sets (Values.tt_pair (a, b)) = λ s. still s
    handler-Sets (Values.ttt (a, b, c)) = λ s. still s
    handler-Sets (Values.tttt (a, b, c, d)) = λ s. still s
    handler-Sets (Values.so (a, b)) = λ s. still s
    handler-Sets (Values.st (a, b)) = λ s. still s
    handler-Sets (Values.uo (a, b)) = λ s. still s
    handler-Sets (Values.isbs xs) = λ s. for_each_plain put_isb (λ (a, b, c) t. still t) xs (endl s)
    handler-Sets (Values.iiays xs) = λ s. for_each-Sets put_iiay _ put_iiay-Sets xs (endl s)
    handler-Sets (Values.iiayqs x) = λ s. put_iiayqs-Sets x (endl s)
    handler-Sets (Values.iiayqss xs) = λ s. for_each-Sets put_iiayqs _ put_iiayqs-Sets xs (endl s)
    handler-Sets (Values.sos xs) = λ s. for_each_plain put_so (λ (a, b) t. still t) xs (endl s)
    handler-Sets (Values.other t) = still

    numbered-Sets : (ns : Numbered) → Sets (numbered_bytes ns) (append_numbered double_text ns)
    numbered-Sets Values.no_number = still
    numbered-Sets (Values.number key v ns) = λ s.
        entry (writes_bytes v) (numbered_bytes ns) (handler double_text v)
          (append_numbered double_text ns) s _ refl (handler-Sets v) (numbered-Sets ns)

    fields-Sets :
        (start : Writes)
        → Sets false start
        → (fs : Fields) → Sets (fields_bytes fs) (append_fields double_text start fs)
    fields-Sets start h Values.no_field = still
    fields-Sets start h (Values.field key v fs) = λ s.
        entry (writes_bytes v) (fields_bytes fs) (handler double_text v)
          (append_fields double_text start fs) s _ (clear s (start s) (h s)) (handler-Sets v)
          (fields-Sets start h fs)

    named-Sets : (ns : NamedFields) → Sets (named_bytes ns) (append_named double_text ns)
    named-Sets Values.no_name = still
    named-Sets (Values.name key fs ns) = λ s.
        entry (fields_bytes fs) (named_bytes ns) (append_fields double_text idle fs)
          (append_named double_text ns) s _ refl (fields-Sets idle still fs) (named-Sets ns)

    lists-Sets : (ls : FieldLists) → Sets (lists_bytes ls) (append_lists double_text ls)
    lists-Sets Values.no_list = still
    lists-Sets (Values.one fs ls) = λ s.
        entry (fields_bytes fs) (lists_bytes ls) (append_fields double_text tab fs)
          (append_lists double_text ls) s s refl (fields-Sets tab still fs) (lists-Sets ls)

  -- After Utils::append_properties the stream writes its numbers in hexadecimal exactly if it did
  -- before, or if a byte of some array among the properties was written: the flag is never cleared.
  pub append_properties-hex :
      (props : List (Text × Variant)) (s : Stream)
      → (append_properties double_text props s).hex
        ≡ (s.hex || any (λ (key, value). writes_bytes value) props)
  unfolding append_properties append_property put ◌>>◌
  append_properties-hex [] s = still s
  append_properties-hex ((key, value) ∷ props) s =
      entry (writes_bytes value) (any (λ (key, value). writes_bytes value) props)
        (handler double_text value) (append_properties double_text props) s _ refl
        (handler-Sets value) (append_properties-hex props)
