-- ===== src/Bluez/Packed.antt =====
-- The fields of the gamepads' reports: buttons that share a byte, the first in its lowest bit, and
-- numbers of several bytes.
use native.Mathlib.Nat.{mod-eq_of_lt}
use sdbus_cpp_examples.Prelude.{
  ℕ, ◌+◌, ◌*◌, ◌/◌, ◌%◌, ◌<◌, ◌≡◌, ap, refl, ◌∙◌, ◌-◌, ◌^◌, List, ◌∷◌, arith,
}
use sdbus_cpp_examples.Bluez.DualSense.Input.{bits, little_endian, signed}
use sdbus_cpp_examples.Prelude.Int.{ℤ, pos, negsuc}

-- Eight buttons in a byte.
abbrev pub packed : ℕ → ℕ → ℕ → ℕ → ℕ → ℕ → ℕ → ℕ → ℕ
packed a b c d e f g h = a + 2 * (b + 2 * (c + 2 * (d + 2 * (e + 2 * (f + 2 * (g + 2 * h))))))

module _ (a b c d e f g h : ℕ) (a2 : a < 2) (b2 : b < 2) (c2 : c < 2) (d2 : d < 2) (e2 : e < 2)
    (f2 : f < 2) (g2 : g < 2) (h2 : h < 2) where
  pub bit_0 : bits 0 1 (packed a b c d e f g h) ≡ a
  bit_0 = omega arith

  pub bit_1 : bits 1 1 (packed a b c d e f g h) ≡ b
  bit_1 = omega arith

  pub bit_2 : bits 2 1 (packed a b c d e f g h) ≡ c
  bit_2 = omega arith

  pub bit_3 : bits 3 1 (packed a b c d e f g h) ≡ d
  bit_3 = omega arith

  pub bit_4 : bits 4 1 (packed a b c d e f g h) ≡ e
  bit_4 = omega arith

  pub bit_5 : bits 5 1 (packed a b c d e f g h) ≡ f
  bit_5 = omega arith

  pub bit_6 : bits 6 1 (packed a b c d e f g h) ≡ g
  bit_6 = omega arith

  pub bit_7 : bits 7 1 (packed a b c d e f g h) ≡ h
  bit_7 = omega arith

pub in_range : (n m w : ℕ) → m ≡ n → n < w → m % w ≡ n
in_range n m w e h = ap (λ k. k % w) e ∙ mod-eq_of_lt h

-- Four buttons above the hat switch in a byte.
abbrev pub beside : ℕ → ℕ → ℕ → ℕ → ℕ → ℕ
beside h a b c d = h + 16 * (a + 2 * (b + 2 * (c + 2 * d)))

module _ (h a b c d : ℕ) (h16 : h < 16) (a2 : a < 2) (b2 : b < 2) (c2 : c < 2) (d2 : d < 2) where
  pub low_bits : bits 0 4 (beside h a b c d) ≡ h
  low_bits = omega arith

  pub high_0 : bits 4 1 (beside h a b c d) ≡ a
  high_0 = omega arith

  pub high_1 : bits 5 1 (beside h a b c d) ≡ b
  high_1 = omega arith

  pub high_2 : bits 6 1 (beside h a b c d) ≡ c
  high_2 = omega arith

  pub high_3 : bits 7 1 (beside h a b c d) ≡ d
  high_3 = omega arith

-- Numbers of several bytes, the lowest first.
pub little_endian_two :
    (n a b : ℕ) (rest : List ℕ) → a ≡ n % 256 → b ≡ n / 256 → little_endian 2 (a ∷ b ∷ rest) ≡ n
unfolding little_endian
little_endian_two n a b rest h k = omega (arith, h, k)

pub little_endian_four :
    (n : ℕ) (rest : List ℕ)
    → n < 4294967296
    → little_endian 4 (n % 256 ∷ n / 256 % 256 ∷ n / 65536 % 256 ∷ n / 16777216 ∷ rest) ≡ n
unfolding little_endian
little_endian_four n rest h = omega arith

-- Two's complement.
abbrev pub word : ℕ → ℤ → ℕ
word w (pos n) = n
word w (negsuc n) = 2 ^ w - 1 - n

abbrev pub FitsWord : ℕ → ℤ → Type 0
FitsWord w (pos n) = n < 2 ^ (w - 1)
FitsWord w (negsuc n) = n < 2 ^ (w - 1)

pub signed-word_8 : (z : ℤ) → FitsWord 8 z → signed 8 (word 8 z) ≡ z
signed-word_8 (pos n) h = ground arith
signed-word_8 (negsuc n) h =
    let back : 256 - (255 - n) - 1 ≡ n = omega arith in ground (arith, ap negsuc back)

signed-word_16 : (z : ℤ) → FitsWord 16 z → signed 16 (word 16 z) ≡ z
signed-word_16 (pos n) h = ground arith
signed-word_16 (negsuc n) h =
    let back : 65536 - (65535 - n) - 1 ≡ n = omega arith in ground (arith, ap negsuc back)

pub signed-little_endian :
    (z : ℤ) (rest : List ℕ)
    → FitsWord 16 z
    → signed 16 (little_endian 2 (word 16 z % 256 ∷ word 16 z / 256 ∷ rest)) ≡ z
signed-little_endian z rest h =
    ap (signed 16) (little_endian_two (word 16 z) _ _ rest refl refl) ∙ signed-word_16 z h
