-- ===== src/Printing/Properties/Flags/Flagging.antt =====
-- Which of the writes of utils.cc set std::hex.
use sdbus_cpp_examples.Prelude.{
  ℕ, ◌≡◌, refl, Bool, false, ◌||◌, not, List, [], ◌∷◌, is_empty, arith,
}
use sdbus_cpp_examples.Prelude.Text.{Text}
use sdbus_cpp_examples.Prelude.Decimal.{decimal}
use sdbus_cpp_examples.Prelude.Int.{ℤ}
use sdbus_cpp_examples.Printing.Streams.{
  Stream, Writes, ◌>>◌, idle, put, tab, put_number, put_int32, put_bytes, put_byte, set_hex,
  for_each, comma, if_empty,
}
use sdbus_cpp_examples.Printing.Properties.{put_iiay, put_iiayqs, put_ayuay, put_ayuayu, put_line}

abbrev pub some_byte : List ℕ → Bool
some_byte bytes = not (is_empty bytes)

abbrev pub any {ℓ} : {A : Type ℓ} → (A → Bool) → List A → Bool
any p [] = false
any p (x ∷ xs) = p x || any p xs

-- The write sets the flag exactly if the Boolean says so, and leaves it set if it is.
abbrev pub Sets : Bool → Writes → Type 0
Sets b f = (s : Stream) → (f s).hex ≡ (s.hex || b)

pub for_each-Sets {ℓ} :
    {A : Type ℓ} (f : A → Writes) (p : A → Bool)
    → ((x : A) → Sets (p x) (f x))
    → (xs : List A) → Sets (any p xs) (for_each f xs)
unfolding for_each ◌>>◌
for_each-Sets f p h [] s = ground arith
for_each-Sets f p h (x ∷ xs) s = ground (arith, h x s, for_each-Sets f p h xs (f x s))

pub for_each_plain {ℓ} :
    {A : Type ℓ} (f : A → Writes)
    → ((x : A) → Sets false (f x))
    → (xs : List A) → Sets false (for_each f xs)
unfolding for_each ◌>>◌
for_each_plain f h [] s = ground arith
for_each_plain f h (x ∷ xs) s = ground (arith, h x s, for_each_plain f h xs (f x s))

pub put_bytes-Sets : (bytes : List ℕ) → Sets (some_byte bytes) (put_bytes bytes)
unfolding for_each put_byte ◌>>◌ put set_hex
put_bytes-Sets [] s = ground arith
put_bytes-Sets (b ∷ bytes) s = ground (arith, put_bytes-Sets bytes (put_byte b s))

-- A composite in its parts.
then-Sets : (b c : Bool) (f g : Writes) → Sets b f → Sets c g → Sets (b || c) (f >> g)
unfolding ◌>>◌
then-Sets b c f g hf hg s = ground (arith, hf s, hg (f s))

pub put_iiay-Sets : (x : ℤ × ℤ × List ℕ) → Sets (some_byte x.2) (put_iiay x)
unfolding put_iiay put put_int32 ◌>>◌
put_iiay-Sets (a, b, bytes) s = put_bytes-Sets bytes _

pub put_iiayqs-Sets : (x : ℤ × ℤ × List ℕ × ℕ × Text) → Sets (some_byte x.2) (put_iiayqs x)
unfolding put_iiayqs put put_int32 put_number ◌>>◌
put_iiayqs-Sets (a, b, bytes, port, name) s = put_bytes-Sets bytes _

-- Two arrays of bytes with writes around them that leave the flag alone.
two-Sets :
    (a b : List ℕ) (s t u : Stream)
    → t.hex ≡ (put_bytes a s).hex
    → u.hex ≡ (put_bytes b t).hex
    → u.hex ≡ (s.hex || (some_byte a || some_byte b))
two-Sets a b s t u h k = ground (arith, h, k, put_bytes-Sets a s, put_bytes-Sets b t)

pub put_ayuay-Sets : (x : List ℕ × ℕ × List ℕ) → Sets (some_byte x.0 || some_byte x.2) (put_ayuay x)
unfolding put_ayuay put ◌>>◌
put_ayuay-Sets (a, n, b) s =
    two-Sets a b (tab s) ((tab >> put_bytes a >> comma >> put (decimal n) >> comma) s)
      (put_ayuay (a, n, b) s) refl refl

pub put_ayuayu-Sets :
    (x : List ℕ × ℕ × List ℕ × ℕ) → Sets (some_byte x.0 || some_byte x.2) (put_ayuayu x)
unfolding put_ayuayu put ◌>>◌
put_ayuayu-Sets (a, n, b, m) s =
    two-Sets a b (tab s) ((tab >> put_bytes a >> comma >> put (decimal n) >> comma) s)
      (put_ayuayu (a, n, b, m) s) refl refl

-- What stands around a part that sets the flag.
pub if_empty-Sets {ℓ} :
    {A : Type ℓ} (xs : List A) (w : Writes) → Sets false w → Sets false (if_empty xs w)
unfolding put ◌>>◌
if_empty-Sets [] w h s = ground arith
if_empty-Sets (x ∷ xs) w h s = h s

pub after : (f g : Writes) (b : Bool) → Sets b f → Sets false g → Sets b (f >> g)
unfolding ◌>>◌
after f g b hf hg s = ground (arith, hf s, hg (f s))

pub still : Sets false idle
still s = ground arith

pub clear : (s t : Stream) → t.hex ≡ (s.hex || false) → t.hex ≡ s.hex
clear s t h = ground (arith, h)

pub plain_line : (t : Text) → Sets false (put_line t)
unfolding put ◌>>◌
plain_line t s = ground arith
