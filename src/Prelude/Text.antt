-- ===== src/Prelude/Text.antt =====
-- `std::string` as the list of its bytes: comparison, `find` of a byte and of a text.
use Prim.Native.Nat.{ℕ, suc, zero, ◌+◌, ◌-◌, ◌≤◌}
use Prim.Native.Char.{code}
use Prim.Native.String.{String}
use mathlib.Core.Path.{◌≡◌, refl, ap, subst}
use mathlib.Core.Logic.{◌↔◌}
use mathlib.Core.Bool.{Bool, true, false, ◌&&◌}
use mathlib.Core.List.{List, [], ◌∷◌, ◌++◌}
use mathlib.Core.Option.{Option, none, some, some-injective}
use mathlib.Core.Option
use native.Mathlib.Omega.{arith}
use sdbus_cpp_examples.Prelude.Tests.{if_rule, leb, ◌==◌, if◌then◌else◌}
use sdbus_cpp_examples.Prelude.Lists.{length, take, drop}

abbrev pub Text : Type 0
Text = List ℕ

-- A literal's bytes (the program's literals are ASCII).
abbrev pub text : String → Text
text String.[] = []
text (String.◌∷◌ c s) = code c ∷ text s

abbrev pub text_eq : Text → Text → Bool
text_eq [] [] = true
text_eq [] (y ∷ ys) = false
text_eq (x ∷ xs) [] = false
text_eq (x ∷ xs) (y ∷ ys) = x == y && text_eq xs ys

pub text_eq_iff : (s t : Text) → (text_eq s t ≡ true) ↔ (s ≡ t)
text_eq_iff [] [] = ground arith
text_eq_iff [] (y ∷ ys) = ground arith
text_eq_iff (x ∷ xs) [] = ground arith
text_eq_iff (x ∷ xs) (y ∷ ys) = ground (arith, text_eq_iff xs ys)

pub text_eq_self : (s : Text) → text_eq s s ≡ true
text_eq_self s = (text_eq_iff s s).1 refl

-- `s.compare(0, p.size(), p) == 0`.
abbrev pub starts_with : Text → Text → Bool
starts_with [] s = true
starts_with (p ∷ ps) [] = false
starts_with (p ∷ ps) (c ∷ s) = p == c && starts_with ps s

-- `s.find(p)`: the first position at which `p` stands, `none` for npos.
abbrev pub find_text : Text → Text → Option ℕ
find_text p [] = if starts_with p [] then some 0 else none
find_text p (c ∷ s) = if starts_with p (c ∷ s) then some 0 else Option.map suc (find_text p s)

-- `s.find(c) != npos`.
abbrev pub has_byte : ℕ → Text → Bool
has_byte b [] = false
has_byte b (c ∷ s) = if c == b then true else has_byte b s

-- std::toupper and std::tolower of the C locale, on a byte.
abbrev pub to_upper : ℕ → ℕ
to_upper c = if leb b'a' c && leb c b'z' then c - 32 else c

abbrev pub to_lower : ℕ → ℕ
to_lower c = if leb b'A' c && leb c b'Z' then c + 32 else c

pub to_upper-to_lower : (c : ℕ) → to_upper (to_lower c) ≡ to_upper c
to_upper-to_lower c = ground arith

pub starts_with-split : (p s : Text) → starts_with p s ≡ true → s ≡ p ++ drop (length p) s
starts_with-split [] s h = refl
starts_with-split (p ∷ ps) [] h = cc
starts_with-split (p ∷ ps) (c ∷ s) h = ground (arith, starts_with-split ps s)

-- What a find says: the text up to the position, then the pattern.
abbrev pub FoundAt : Text → Text → ℕ → Type 0
FoundAt p s i = (rest : Text) × (s ≡ take i s ++ (p ++ rest))

pub find_text-FoundAt : (p s : Text) (i : ℕ) → find_text p s ≡ some i → FoundAt p s i
find_text-FoundAt [] [] i = λ h. ([], ground arith)
find_text-FoundAt (p ∷ ps) [] i = λ h. cc
find_text-FoundAt p (c ∷ s) i =
    if_rule (λ (o : Option ℕ). o ≡ some i → FoundAt p (c ∷ s) i) (starts_with p (c ∷ s)) _ _
      (λ e h.
        subst (FoundAt p (c ∷ s)) (some-injective 0 i h)
          (drop (length p) (c ∷ s), starts_with-split p (c ∷ s) e))
      (λ e h. later i (find_text p s) (λ j. find_text-FoundAt p s j) h)
  where
    later :
        (i : ℕ) (o : Option ℕ)
        → ((j : ℕ) → o ≡ some j → FoundAt p s j)
        → Option.map suc o ≡ some i
        → FoundAt p (c ∷ s) i
    later i none found h = cc
    later i (some j) found h =
        let (rest, q) = found j refl in
        subst (FoundAt p (c ∷ s)) (some-injective (suc j) i h) (rest, ap (◌∷◌ c) q)

pub take-append : (q t : Text) (i : ℕ) → length q ≤ i → take i (q ++ t) ≡ q ++ take (i - length q) t
take-append [] t i h = ap (λ n. take n t) (omega arith)
take-append (c ∷ q) t zero h = absurd (omega arith)
take-append (c ∷ q) t (suc i) h =
    let shift : suc i - length (c ∷ q) ≡ i - length q = omega arith in
    rw shift (ap (◌∷◌ c) (take-append q t i (omega arith)))
