-- ===== src/Prelude/Sets.antt =====
-- Vectors of pointers used as sets: `std::ranges::find(v, x) != v.end()`, `std::erase(v, x)`.
use Prim.Native.Nat.{ℕ, ◌+◌}
use mathlib.Core.Path.{◌≡◌, refl}
use mathlib.Core.Bool.{Bool, false, not, ◌&&◌, ◌||◌}
use mathlib.Core.List.{List, [], ◌∷◌, ◌++◌}
use native.Mathlib.Omega.{arith}
use sdbus_cpp_examples.Prelude.Tests.{◌==◌, if◌then◌else◌}

unfoldable pub contains : ℕ → List ℕ → Bool
contains a [] = false
contains a (x ∷ xs) = x == a || contains a xs

unfoldable pub erase : ℕ → List ℕ → List ℕ
erase a [] = []
erase a (x ∷ xs) = if x == a then erase a xs else x ∷ erase a xs

-- No entry twice.
abbrev pub IsUnique : List ℕ → Type 0
IsUnique [] = Unit
IsUnique (x ∷ xs) = (contains x xs ≡ false) × IsUnique xs

pub contains-nil : (a : ℕ) → contains a [] ≡ false
unfolding contains
contains-nil a = refl

pub contains-cons : (a x : ℕ) (xs : List ℕ) → contains a (x ∷ xs) ≡ (x == a || contains a xs)
unfolding contains
contains-cons a x xs = refl

pub contains-erase :
    (a x : ℕ) (xs : List ℕ) → contains a (erase x xs) ≡ (not (x == a) && contains a xs)
unfolding contains erase
contains-erase a x [] = ground arith
contains-erase a x (y ∷ xs) = ground (arith, contains-erase a x xs)

pub contains-append :
    (a : ℕ) (xs ys : List ℕ) → contains a (xs ++ ys) ≡ (contains a xs || contains a ys)
unfolding contains
contains-append a [] ys = refl
contains-append a (x ∷ xs) ys = ground (arith, contains-append a xs ys)

pub erase-IsUnique : (a : ℕ) (xs : List ℕ) → IsUnique xs → IsUnique (erase a xs)
unfolding erase
erase-IsUnique a [] u = tt
erase-IsUnique a (x ∷ xs) u = ground (arith, erase-IsUnique a xs u.1, contains-erase x a xs)

pub push-IsUnique :
    (a : ℕ) (xs : List ℕ) → contains a xs ≡ false → IsUnique xs → IsUnique (xs ++ a ∷ [])
unfolding contains
push-IsUnique a [] h u = ground arith
push-IsUnique a (x ∷ xs) h u = ground (arith, push-IsUnique a xs, contains-append x xs (a ∷ []))

-- How often an entry stands in a list.
unfoldable pub count : ℕ → List ℕ → ℕ
count a [] = 0
count a (x ∷ xs) = (if x == a then 1 else 0) + count a xs

pub count-nil : (a : ℕ) → count a [] ≡ 0
unfolding count
count-nil a = refl

pub count-append : (a : ℕ) (xs ys : List ℕ) → count a (xs ++ ys) ≡ count a xs + count a ys
unfolding count
count-append a [] ys = omega arith
count-append a (x ∷ xs) ys = omega (arith, count-append a xs ys)
