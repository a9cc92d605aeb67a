-- ===== src/Examples/Prints.antt =====
-- What is printed of a DNS server's properties, of a JSON text, and of raw bytes.
use sdbus_cpp_examples.Prelude.{
  ℕ, ◌≡◌, ◌+◌, ◌/◌, refl, true, false, ◌||◌, some, List, [], ◌∷◌, ◌++◌, arith,
}
use sdbus_cpp_examples.Prelude.Text.{Text, text}
use sdbus_cpp_examples.Prelude.Int.{ℤ, pos}
use sdbus_cpp_examples.Prelude.Decimal.{digits}
use sdbus_cpp_examples.Printing.Values
use sdbus_cpp_examples.Printing.Values.{Variant}
use sdbus_cpp_examples.Printing.Streams.{
  new_stream, ◌>>◌, put, put_byte, put_number, put_int32, set_hex, for_each,
}
use sdbus_cpp_examples.Printing.Properties.{append_properties, append_property, put_iiayqs}
use sdbus_cpp_examples.Printing.Properties.Flags.{writes_bytes, append_properties-hex}
use sdbus_cpp_examples.Printing.Properties.Flags.Flagging.{any}
use sdbus_cpp_examples.Printing.Properties.Bytes.{read_bytes, append_property-read_bytes}
use sdbus_cpp_examples.Printing.Json.{
  Json, string, object, array, null, no_member, member, no_item, item,
}
use sdbus_cpp_examples.Printing.Hexdump.{hexdump}
use sdbus_cpp_examples.Printing.Hexdump.Rows.{lines_of, hexdump-lines_of}

abbrev no_double : ℕ → Text
no_double bits = text "0.000000"

-- 10.0.0.1, port 53.
abbrev dns_server : ℤ × ℤ × List ℕ × ℕ × Text
dns_server = (pos 2, pos 2, 10 ∷ 0 ∷ 0 ∷ 1 ∷ [], 53, [])

-- The port is written in hexadecimal, after the bytes of the address.
port_is_hexadecimal :
    (put_iiayqs dns_server new_stream).out ≡ b'\t' ∷ text "2, 2, 0a 00 00 01 , 35, "
unfolding put_iiayqs ◌>>◌ put put_byte put_number put_int32 set_hex for_each digits
port_is_hexadecimal = refl

abbrev dns_properties : List (Text × Variant)
dns_properties =
    (text "CurrentDNSServerEx", Values.iiayqs dns_server)
    ∷ (text "CacheStatistics", Values.ttt (10, 20, 30))
    ∷ []

append_properties-hex_example :
    (append_properties no_double dns_properties new_stream).hex
    ≡ (false || any (λ (key, value). writes_bytes value) dns_properties)
append_properties-hex_example = append_properties-hex no_double dns_properties new_stream

append_property-read_bytes_example :
    (line : Text) × ((append_property no_double (Values.bytes (10 ∷ 255 ∷ [])) new_stream).out
      ≡ [] ++ (text "[ay] " ++ line))
    × (read_bytes line ≡ some (10 ∷ 255 ∷ []))
append_property-read_bytes_example =
    append_property-read_bytes no_double 10 (255 ∷ []) new_stream (omega arith, (omega arith, tt))

abbrev a_json : Json
a_json = object (
    member (text "Hostname") (string (text "pi"))
      (member (text "Data") (array (item null (item (object no_member) no_item))) no_member))

hexdump-lines_of_example :
    hexdump 16 true (72 ∷ 105 ∷ 0 ∷ []) ≡ lines_of 16 true ((3 + 15) / 16) 0 (72 ∷ 105 ∷ 0 ∷ [])
hexdump-lines_of_example = hexdump-lines_of 16 true (72 ∷ 105 ∷ 0 ∷ []) (omega arith)
