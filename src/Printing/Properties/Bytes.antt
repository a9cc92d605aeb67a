-- ===== src/Printing/Properties/Bytes.antt =====
-- The bytes of an array can be read back from what is written of it.
use sdbus_cpp_examples.Prelude.{
  ℕ, ◌+◌, ◌-◌, ◌*◌, ◌/◌, ◌%◌, ◌<◌, ◌≡◌, refl, sym, ap, ◌∙◌, Option, none, some, List, [], ◌∷◌, ◌++◌,
  if◌then◌else◌, ltb, bind, All, arith,
}
use sdbus_cpp_examples.Prelude.Text.{Text, text}
use sdbus_cpp_examples.Prelude.Decimal.{digit, hex_byte}
use sdbus_cpp_examples.Printing.Values
use sdbus_cpp_examples.Printing.Streams.{Stream, ◌>>◌, put, put_bytes, put_byte, set_hex, for_each}
use sdbus_cpp_examples.Printing.Properties.{handler, put_type, append_property}

-- A reader of two digits and a space for each byte, up to the end of the line.
abbrev pub digit_value : ℕ → ℕ
digit_value c = if ltb c 97 then c - 48 else c - 87

unfoldable pub read_bytes : Text → Option (List ℕ)
read_bytes [] = none
read_bytes (a ∷ []) = some []
read_bytes (a ∷ b ∷ []) = none
read_bytes (a ∷ b ∷ c ∷ s) =
    bind (read_bytes s) λ bytes. some ((16 * digit_value a + digit_value b) ∷ bytes)

pub digit_value-digit : (d : ℕ) → d < 16 → digit_value (digit d) ≡ d
digit_value-digit d h = ground arith

-- What put_bytes adds to the stream.
unfoldable pub bytes_text : List ℕ → Text
bytes_text [] = []
bytes_text (b ∷ bytes) = hex_byte b ++ b' ' ∷ bytes_text bytes

append_assoc : (xs ys zs : Text) → (xs ++ ys) ++ zs ≡ xs ++ (ys ++ zs)
append_assoc [] ys zs = refl
append_assoc (x ∷ xs) ys zs = ap (◌∷◌ x) (append_assoc xs ys zs)

append_nil : (xs : Text) → xs ++ [] ≡ xs
append_nil [] = refl
append_nil (x ∷ xs) = ap (◌∷◌ x) (append_nil xs)

put_bytes-out : (bytes : List ℕ) (s : Stream) → (put_bytes bytes s).out ≡ s.out ++ bytes_text bytes
unfolding for_each put_byte ◌>>◌ put set_hex bytes_text
put_bytes-out [] s = sym (append_nil s.out)
put_bytes-out (b ∷ bytes) s =
    put_bytes-out bytes (put_byte b s)
    ∙ append_assoc s.out (hex_byte b ++ b' ' ∷ []) (bytes_text bytes)

read_bytes-bytes_text :
    (bytes : List ℕ)
    → All (λ b. b < 256) bytes
    → read_bytes (bytes_text bytes ++ b'\n' ∷ []) ≡ some bytes
unfolding bytes_text read_bytes
read_bytes-bytes_text [] h = refl
read_bytes-bytes_text (b ∷ bytes) (lt, h) = rw (read_bytes-bytes_text bytes h) (
    ap (λ n. some (n ∷ bytes))
      (omega (
        arith,
        digit_value-digit (b / 16) (omega arith),
        digit_value-digit (b % 16) (omega arith),
      )))

handler-read_bytes :
    (double_text : ℕ → Text) (b : ℕ) (bytes : List ℕ) (s : Stream)
    → All (λ n. n < 256) (b ∷ bytes)
    → (line : Text) × ((handler double_text (Values.bytes (b ∷ bytes)) s).out ≡ s.out ++ line)
      × (read_bytes line ≡ some (b ∷ bytes))
unfolding handler put ◌>>◌
handler-read_bytes double_text b bytes s h = (
  bytes_text (b ∷ bytes) ++ b'\n' ∷ [],
  ap (λ t. t ++ b'\n' ∷ []) (put_bytes-out (b ∷ bytes) s)
      ∙ append_assoc s.out (bytes_text (b ∷ bytes)) (b'\n' ∷ []),
  read_bytes-bytes_text (b ∷ bytes) h,
)

-- What append_property writes for a byte array that is not empty is appended to the stream: the
-- characters "[ay] ", and then a line that gives the bytes back when it is read as two digits and a
-- space for each byte.
pub append_property-read_bytes :
    (double_text : ℕ → Text) (b : ℕ) (bytes : List ℕ) (s : Stream)
    → All (λ n. n < 256) (b ∷ bytes)
    → (line : Text) × ((append_property double_text (Values.bytes (b ∷ bytes)) s).out
        ≡ s.out ++ (text "[ay] " ++ line))
      × (read_bytes line ≡ some (b ∷ bytes))
unfolding append_property put ◌>>◌
append_property-read_bytes double_text b bytes s h =
    let ay = put_type (Values.bytes (b ∷ bytes)) s in
    let (line, written, read) = handler-read_bytes double_text b bytes ay h in
    (line, written ∙ append_assoc s.out (text "[ay] ") line, read)
