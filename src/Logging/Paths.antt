-- ===== src/Logging/Paths.antt =====
-- What the tests of the log's path let through.
use sdbus_cpp_examples.Prelude.{
  ℕ, zero, suc, ◌≤◌, ◌<◌, ◌≡◌, refl, ap, sym, subst, Bool, true, false, ◌||◌, Option, none, some,
  List, [], ◌∷◌, ◌==◌, if◌then◌else◌, if_rule, length, All, arith, Bool-cases, inl, inr,
}
use sdbus_cpp_examples.Prelude.Text.{Text, text_eq, has_byte}
use sdbus_cpp_examples.Logging.{
  component, and_then, parent, no_traversal, starts_with_dash, is_log_file_path_safe,
  get_log_file_path_from_env,
}

-- The components of a path, without positions: split at every slash.
abbrev pub push_front : ℕ → List Text → List Text
push_front c [] = (c ∷ []) ∷ []
push_front c (k ∷ ks) = (c ∷ k) ∷ ks

abbrev pub components : Text → List Text
components [] = [] ∷ []
components (c ∷ s) = if c == b'/' then [] ∷ components s else push_front c (components s)

abbrev onward : Option Text → List Text
onward none = []
onward (some t) = components t

abbrev Shorter : Option Text → ℕ → Type 0
Shorter none n = Unit
Shorter (some t) n = length t < n

components-component : (s : Text) → components s ≡ (component s).0 ∷ onward (component s).1
unfolding component
components-component [] = refl
components-component (c ∷ s) = elim (Bool-cases (c == b'/')) [
  | inl slash ↦ rw slash refl
  | inr other ↦ rw other (ap (push_front c) (components-component s))
]

component-Shorter : (c : ℕ) (s : Text) → Shorter (component (c ∷ s)).1 (length (c ∷ s))
unfolding component
component-Shorter c [] = elim (Bool-cases (c == b'/')) [
  | inl slash ↦ rw slash (omega arith)
  | inr other ↦ rw other tt
]
component-Shorter c (d ∷ s) = elim (Bool-cases (c == b'/')) [
  | inl slash ↦ rw slash (omega arith)
  | inr other ↦ rw other (longer (component (d ∷ s)).1 (component-Shorter d s))
]
  where
    longer : (o : Option Text) → Shorter o (length (d ∷ s)) → Shorter o (length (c ∷ d ∷ s))
    longer none h = tt
    longer (some t) h = omega (arith, h)

abbrev pub NoParent : List Text → Type 0
NoParent ks = All (λ k. text_eq k parent ≡ false) ks

onward-NoParent :
    (n m : ℕ) (o : Option Text)
    → ((t : Text) → length t ≤ n → no_traversal n t ≡ true → NoParent (components t))
    → m ≤ suc n
    → Shorter o m
    → and_then o (λ t. no_traversal n t) ≡ true
    → NoParent (onward o)
onward-NoParent n m none f le h e = tt
onward-NoParent n m (some t) f le h e = f t (omega (arith, le, h)) e

no_traversal-NoParent :
    (n : ℕ) (s : Text) → length s ≤ n → no_traversal n s ≡ true → NoParent (components s)
unfolding no_traversal
no_traversal-NoParent zero [] le h = (refl, tt)
no_traversal-NoParent zero (c ∷ s) le h = absurd (omega arith)
no_traversal-NoParent (suc n) [] le h = (refl, tt)
no_traversal-NoParent (suc n) (c ∷ s) le h =
    let (k, rest) = component (c ∷ s) in
    let onwards =
      onward-NoParent n (length (c ∷ s)) rest (no_traversal-NoParent n) le
        (component-Shorter c s) in
    subst NoParent (sym (components-component (c ∷ s))) (
      if_rule (λ (b : Bool). b ≡ true → NoParent (k ∷ onward rest)) (text_eq k parent) _ _
        (λ _ e. cc) (λ fine e. (fine, onwards e)) h)

-- Whatever LOG_FILE says, the path that logging takes from it, unless it is empty, has no NUL byte
-- and no line break, does not start with a dash, and none of its components is `..`.
pub get_log_file_path_from_env-NoParent :
    (log_file : Option Text)
    → let path = get_log_file_path_from_env log_file in
      NoParent (components path)
      × (has_byte 0 path ≡ false)
      × (has_byte 10 path ≡ false)
      × (has_byte 13 path ≡ false)
      × (starts_with_dash path ≡ false)
unfolding get_log_file_path_from_env is_log_file_path_safe
get_log_file_path_from_env-NoParent none = ((refl, tt), refl, refl, refl, refl)
get_log_file_path_from_env-NoParent (some []) = ((refl, tt), refl, refl, refl, refl)
get_log_file_path_from_env-NoParent (some (c ∷ s)) =
    if_rule
      (λ (p : Text).
        NoParent (components p)
        × (has_byte 0 p ≡ false)
        × (has_byte 10 p ≡ false)
        × (has_byte 13 p ≡ false)
        × (starts_with_dash p ≡ false))
      (is_log_file_path_safe (c ∷ s)) _ _
      (λ e.
        let parts =
          taken (has_byte 0 (c ∷ s)) (has_byte 10 (c ∷ s)) (has_byte 13 (c ∷ s))
            (starts_with_dash (c ∷ s)) (no_traversal (length (c ∷ s)) (c ∷ s)) e in
        (
          no_traversal-NoParent (length (c ∷ s)) (c ∷ s) (omega arith) parts.4,
          parts.0,
          parts.1,
          parts.2,
          parts.3,
        ))
      (λ _. ((refl, tt), refl, refl, refl, refl))
  where
    taken :
        (z n r d t : Bool)
        → (if z then false else if n || r then false else if d then false else t) ≡ true
        → (z ≡ false) × (n ≡ false) × (r ≡ false) × (d ≡ false) × (t ≡ true)
    taken z n r d t h = ground arith
