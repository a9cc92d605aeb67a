-- ===== src/Udisks2/Size/Trimmed.antt =====
-- What byteArrayToString leaves of an array that ends in zero bytes, as the paths of UDisks2 do.
use native.Mathlib.Decide.{dec_lt}
use sdbus_cpp_examples.Prelude.{
  ℕ, zero, suc, ◌≤◌, ◌≡◌, ◌≢◌, refl, ap, ◌∙◌, List, [], ◌∷◌, ◌++◌, length, take, get_or, replicate,
  arith, length-append,
}
use sdbus_cpp_examples.Udisks2.Size.{trimmed_end, byte_array_to_string}

abbrev pub zeros : ℕ → List ℕ
zeros n = replicate n 0

get_or-zeros : (n k : ℕ) → get_or (zeros n) k 0 ≡ 0
get_or-zeros zero k = refl
get_or-zeros (suc n) zero = refl
get_or-zeros (suc n) (suc k) = get_or-zeros n k

get_or-past : (xs : List ℕ) (n i : ℕ) → length xs ≤ i → get_or (xs ++ zeros n) i 0 ≡ 0
get_or-past [] n i h = get_or-zeros n i
get_or-past (x ∷ xs) n zero h = absurd (omega arith)
get_or-past (x ∷ xs) n (suc i) h = get_or-past xs n i (omega arith)

trimmed_end-zeros :
    (xs : List ℕ) (n i : ℕ)
    → length xs ≤ i
    → trimmed_end (xs ++ zeros n) i ≡ trimmed_end (xs ++ zeros n) (length xs)
unfolding trimmed_end
trimmed_end-zeros xs n zero h =
    let e : 0 ≡ length xs = omega arith in ap (trimmed_end (xs ++ zeros n)) e
trimmed_end-zeros xs n (suc i) h = elim (dec_lt (length xs) (suc i)) [
  | no last ↦ let e : suc i ≡ length xs = omega arith in ap (trimmed_end (xs ++ zeros n)) e
  | yes more ↦
      ground (arith, get_or-past xs n i (omega arith), trimmed_end-zeros xs n i (omega arith))
]

get_or-last : (xs ys : List ℕ) (c : ℕ) → get_or ((xs ++ c ∷ []) ++ ys) (length xs) 0 ≡ c
get_or-last [] ys c = refl
get_or-last (x ∷ xs) ys c = get_or-last xs ys c

trimmed_end-last :
    (xs ys : List ℕ) (c n : ℕ)
    → c ≢ 0
    → n ≡ suc (length xs)
    → trimmed_end ((xs ++ c ∷ []) ++ ys) n ≡ n
unfolding trimmed_end
trimmed_end-last xs ys c zero h e = refl
trimmed_end-last xs ys c (suc n) h e =
    let same : n ≡ length xs = omega arith in
    ground (arith, get_or-last xs ys c, ap (λ k. get_or ((xs ++ c ∷ []) ++ ys) k 0) same)

take_all : (xs ys : List ℕ) → take (length xs) (xs ++ ys) ≡ xs
take_all [] ys = refl
take_all (x ∷ xs) ys = ap (◌∷◌ x) (take_all xs ys)

-- An array whose last byte other than 0 is `c` is the text up to and with `c`, however many zero bytes
-- follow, and an array of zero bytes is the empty text.
pub byte_array_to_string-zeros :
    (xs : List ℕ) (c n : ℕ)
    → c ≢ 0
    → (byte_array_to_string ((xs ++ c ∷ []) ++ zeros n) ≡ xs ++ c ∷ [])
      × (byte_array_to_string (zeros n) ≡ [])
unfolding byte_array_to_string trimmed_end
byte_array_to_string-zeros xs c n h =
    let all = length-append (xs ++ c ∷ []) (zeros n) in
    let kept = length-append xs (c ∷ []) in
    (
      ap (λ k. take k ((xs ++ c ∷ []) ++ zeros n))
            (trimmed_end-zeros (xs ++ c ∷ []) n _ (omega arith)
              ∙ trimmed_end-last xs (zeros n) c _ h (omega arith))
          ∙ take_all (xs ++ c ∷ []) (zeros n),
      ap (λ k. take k (zeros n)) (trimmed_end-zeros [] n _ (omega arith)),
    )
