-- ===== src/Services/Objects.antt =====
-- What the clients of login1 and ConnMan do with a map of objects: `if (!map.contains(path))
-- map[path] = std::make_unique<..>(..)`, whose constructor may throw, and the erase.
use sdbus_cpp_examples.Prelude.{
  ◌≡◌, refl, Bool, true, false, ◌||◌, List, [], ◌∷◌, if◌then◌else◌, arith,
}
use sdbus_cpp_examples.Prelude.Text.{Text, text_eq, text_eq_iff}
use sdbus_cpp_examples.Prelude.Map.{
  has_key, insert, remove, text_key, has_key-insert, has_key-remove,
}

abbrev pub Objects : Type 0
Objects = List (Text × Unit {0})

-- The map, and whether nothing was thrown.
unfoldable pub add_object : Bool → Text → Objects → Objects × Bool
add_object made path m =
    if has_key path m then (m, true) else if made then (insert path tt m, true) else (m, false)

abbrev pub unless_thrown : {S : Type 0} → S × Bool → (S → S × Bool) → S × Bool
unless_thrown (m, false) k = (m, false)
unless_thrown (m, true) k = k m

-- A loop that adds, until a constructor throws.
unfoldable pub add_objects : (Text → Bool) → List Text → Objects → Objects × Bool
add_objects makes [] m = (m, true)
add_objects makes (path ∷ paths) m =
    unless_thrown (add_object (makes path) path m) (λ m'. add_objects makes paths m')

unfoldable pub remove_objects : List Text → Objects → Objects
remove_objects [] m = m
remove_objects (path ∷ paths) m = remove_objects paths (remove path m)

unfoldable pub names : Text → List Text → Bool
names p [] = false
names p (path ∷ paths) = text_eq path p || names p paths

pub remove_objects-has_key :
    (paths : List Text) (m : Objects) (p : Text)
    → has_key p (remove_objects paths m) ≡ (if names p paths then false else has_key p m)
unfolding remove_objects names
remove_objects-has_key [] m p = refl
remove_objects-has_key (path ∷ paths) m p =
    ground (arith, remove_objects-has_key paths (remove path m) p, has_key-remove path p m)

-- What a round that throws nothing adds.
Adds : (Text → Bool) → Objects → Objects × Bool → Type 0
Adds new m (m', ok) = ok ≡ true → (p : Text) → has_key p m' ≡ (new p || has_key p m)

add_object-Adds :
    (made : Bool) (path : Text) (m : Objects) → Adds (text_eq path) m (add_object made path m)
unfolding Adds add_object
add_object-Adds made path m ok p =
    ground (arith, ok, has_key-insert path p tt m, text_eq_iff path p)

add_objects-Adds :
    (makes : Text → Bool) (paths : List Text) (m : Objects)
    → Adds (λ p. names p paths) m (add_objects makes paths m)
unfolding Adds add_objects names
add_objects-Adds makes [] m = λ ok p. refl
add_objects-Adds makes (path ∷ paths) m =
    rest (λ m'. add_objects-Adds makes paths m') (add_object (makes path) path m)
      (add_object-Adds (makes path) path m)
  where
    rest :
        ((m' : Objects) → Adds (λ p. names p paths) m' (add_objects makes paths m'))
        → (r : Objects × Bool) → Adds (text_eq path) m r
        → Adds (λ p. names p (path ∷ paths)) m (unless_thrown r (λ m'. add_objects makes paths m'))
    rest ih (m', false) h ok p = cc
    rest ih (m', true) h ok p = ground (arith, h refl p, ih m' ok p)

-- A loop that ended without an exception has added the paths, and nothing else.
pub add_objects-has_key :
    (makes : Text → Bool) (paths : List Text) (m : Objects) (p : Text)
    → (add_objects makes paths m).1 ≡ true
    → has_key p (add_objects makes paths m).0 ≡ (names p paths || has_key p m)
unfolding Adds
add_objects-has_key makes paths m p ok = add_objects-Adds makes paths m ok p
