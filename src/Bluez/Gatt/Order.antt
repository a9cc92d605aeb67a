-- ===== src/Bluez/Gatt/Order.antt =====
-- The order of the keys of a std::map<std::string, ..>.
use sdbus_cpp_examples.Prelude.{
  ◌≡◌, refl, Bool, true, false, none, List, [], ◌∷◌, All, if◌then◌else◌, arith, ltb, ◌==◌,
}
use sdbus_cpp_examples.Prelude.Text.{Text, text, text_eq_iff}
use sdbus_cpp_examples.Prelude.Map.{lookup, text_key}

-- The order of std::string.
unfoldable pub text_less : Text → Text → Bool
text_less s [] = false
text_less [] (c ∷ t) = true
text_less (b ∷ s) (c ∷ t) = let rest = text_less s t in if b == c then rest else ltb b c

-- The keys of a std::map.
abbrev pub Ordered : {V : Type 0} → List (Text × V) → Type 0
Ordered [] = Unit
Ordered ((k, v) ∷ m) = All (λ (j, w). text_less k j ≡ true) m × Ordered m

text_less-irreflexive : (s : Text) → text_less s s ≡ false
unfolding text_less
text_less-irreflexive [] = refl
text_less-irreflexive (c ∷ s) = ground (arith, text_less-irreflexive s)

-- A key that is not after the first of an ordered map is not in the rest.
pub absent :
    {V : Type 0} (k j : Text) (m : List (Text × V))
    → All (λ (i, w). text_less k i ≡ true) m
    → text_less k j ≡ false
    → lookup j m ≡ none
unfolding lookup
absent k j [] h e = refl
absent k j ((i, w) ∷ m) (h, hs) e = ground (arith, absent k j m hs e, text_eq_iff i j)

pub flags_first : text_less (text "Flags") (text "Flags") ≡ false
flags_first = text_less-irreflexive (text "Flags")

pub notifying_first : text_less (text "Notifying") (text "Notifying") ≡ false
notifying_first = text_less-irreflexive (text "Notifying")

pub flags_before : text_less (text "Notifying") (text "Flags") ≡ false
unfolding text_less
flags_before = refl
