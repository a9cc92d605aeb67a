-- ===== src/Bluez/Patterns.antt =====
-- The pieces of the two regular expressions of src/bluez: literal texts and `[0-9A-Fa-f]{4}`, which
-- match in one way only, and regex_search, which tries every position from the left.
use sdbus_cpp_examples.Prelude.{
  ℕ, zero, suc, ◌≡◌, refl, ap, ◌∙◌, Bool, true, false, ◌&&◌, ◌||◌, Option, none, some, [], ◌∷◌,
  ◌++◌, arith, leb, if◌then◌else◌, ◌==◌, length, All,
}
use sdbus_cpp_examples.Prelude.Text.{Text}

abbrev pub is_hex : ℕ → Bool
is_hex c = leb b'0' c && leb c b'9' || leb b'A' c && leb c b'F' || leb b'a' c && leb c b'f'

-- A literal: what is left of the subject behind it.
unfoldable pub literal : Text → Text → Option Text
literal [] s = some s
literal (p ∷ ps) [] = none
literal (p ∷ ps) (c ∷ s) = if p == c then literal ps s else none

abbrev pub push_digit : ℕ → Option (Text × Text) → Option (Text × Text)
push_digit c none = none
push_digit c (some (g, r)) = some (c ∷ g, r)

-- `n` hexadecimal digits: the group, and what is left.
unfoldable pub hex_digits : ℕ → Text → Option (Text × Text)
hex_digits zero s = some ([], s)
hex_digits (suc n) [] = none
hex_digits (suc n) (c ∷ s) =
    let rest = hex_digits n s in if is_hex c then push_digit c rest else none

abbrev pub or_else {ℓ} : {A : Type ℓ} → Option A → Option A → Option A
or_else none o = o
or_else (some a) o = some a

-- std::regex_search: the match at the first position that has one.
unfoldable pub search_from {ℓ} : {A : Type ℓ} → (Text → Option A) → Text → Option A
search_from m [] = m []
search_from m (c ∷ s) = let rest = search_from m s in or_else (m (c ∷ s)) rest

abbrev pub IsHex : Text → Type 0
IsHex s = All (λ c. is_hex c ≡ true) s

pub literal_sound : (p s r : Text) → literal p s ≡ some r → s ≡ p ++ r
unfolding literal
literal_sound [] s r h = ground arith
literal_sound (p ∷ ps) [] r h = cc
literal_sound (p ∷ ps) (c ∷ s) r h = ground (arith, literal_sound ps s r)

pub literal-append : (p r : Text) → literal p (p ++ r) ≡ some r
unfolding literal
literal-append [] r = refl
literal-append (p ∷ ps) r = ground (arith, literal-append ps r)

-- What a match of `n` digits says of the subject.
abbrev pub Took : ℕ → Text → Option (Text × Text) → Type 0
Took n s none = Unit
Took n s (some (g, r)) = (s ≡ g ++ r) × IsHex g × (length g ≡ n)

push_digit-Took :
    (n c : ℕ) (s : Text) (b : Bool) (o : Option (Text × Text))
    → (b ≡ true → is_hex c ≡ true)
    → Took n s o
    → Took (suc n) (c ∷ s) (if b then push_digit c o else none)
push_digit-Took n c s true none h k = tt
push_digit-Took n c s true (some (g, r)) h k = (ap (◌∷◌ c) k.0, (h refl, k.1), ap suc k.2)
push_digit-Took n c s false o h k = tt

pub hex_digits-Took : (n : ℕ) (s : Text) → Took n s (hex_digits n s)
unfolding hex_digits
hex_digits-Took zero s = (refl, tt, refl)
hex_digits-Took (suc n) [] = tt
hex_digits-Took (suc n) (c ∷ s) =
    push_digit-Took n c s (is_hex c) (hex_digits n s) (λ e. e) (hex_digits-Took n s)

pub hex_digits-append :
    (n : ℕ) (g r : Text) → IsHex g → length g ≡ n → hex_digits n (g ++ r) ≡ some (g, r)
unfolding hex_digits
hex_digits-append zero [] r h e = refl
hex_digits-append zero (c ∷ g) r h e = absurd (omega arith)
hex_digits-append (suc n) [] r h e = absurd (omega arith)
hex_digits-append (suc n) (c ∷ g) r h e = ground (arith, hex_digits-append n g r h.1)

-- A match found stands at some position.
pub search_from_sound {ℓ} :
    {A : Type ℓ} (m : Text → Option A) (s : Text) (a : A)
    → search_from m s ≡ some a
    → (before : Text) × (rest : Text) × (s ≡ before ++ rest) × (m rest ≡ some a)
unfolding search_from
search_from_sound m [] a h = ([], [], refl, h)
search_from_sound {A} m (c ∷ s) a h = found (m (c ∷ s)) refl h (search_from_sound m s a)
  where
    found :
        (o : Option A)
        → m (c ∷ s) ≡ o
        → or_else o (search_from m s) ≡ some a
        → (search_from m s ≡ some a
            → (before : Text) × (rest : Text) × (s ≡ before ++ rest) × (m rest ≡ some a))
        → (before : Text) × (rest : Text) × (c ∷ s ≡ before ++ rest) × (m rest ≡ some a)
    found none e k later = let (before, rest, p, q) = later k in (c ∷ before, rest, ap (◌∷◌ c) p, q)
    found (some b) e k later = ([], c ∷ s, refl, e ∙ k)

pub search_from_head {ℓ} :
    {A : Type ℓ} (m : Text → Option A) (s : Text) (a : A) → m s ≡ some a → search_from m s ≡ some a
unfolding search_from
search_from_head m [] a h = h
search_from_head m (c ∷ s) a h = rw h
