-- ===== src/EventLoop/Trace/Effects.antt =====
-- The effects of one kind in a row, and which objects they use and destroy.
use sdbus_cpp_examples.Prelude.{
  ℕ, ◌+◌, ◌≡◌, true, false, List, [], ◌∷◌, ◌++◌, map, arith, contains, contains-cons, IsUnique, inl,
  inr, Bool-cases, ◌==◌, All,
}
use sdbus_cpp_examples.EventLoop.{
  Loop, Effect, polled, dispatched, deleted, Call, dispatch_one, dispatch_from, bury,
}

-- With the objects in `dead` destroyed, the effects use and destroy live objects only.
abbrev pub Uses : List ℕ → List Effect → Type 0
Uses dead [] = Unit
Uses dead (polled s ∷ es) = (contains s dead ≡ false) × Uses dead es
Uses dead (dispatched s r ∷ es) = (contains s dead ≡ false) × Uses dead es
Uses dead (deleted s ∷ es) = (contains s dead ≡ false) × Uses (s ∷ dead) es

abbrev pub Apart : List ℕ → List ℕ → Type 0
Apart xs dead = All (λ x. contains x dead ≡ false) xs

pub all-Apart :
    (xs ys dead : List ℕ)
    → ((a : ℕ) → contains a ys ≡ true → contains a dead ≡ false)
    → ((a : ℕ) → contains a xs ≡ true → contains a ys ≡ true)
    → Apart xs dead
all-Apart [] ys dead h sub = tt
all-Apart (x ∷ xs) ys dead h sub = (
  h x (sub x (ground (arith, contains-cons x x xs))),
  all-Apart xs ys dead h (λ a e. sub a (ground (arith, contains-cons a x xs))),
)

pub Apart-cons :
    (x : ℕ) (xs dead : List ℕ) → contains x xs ≡ false → Apart xs dead → Apart xs (x ∷ dead)
Apart-cons x [] dead n h = tt
Apart-cons x (y ∷ xs) dead n h = (
  ground (arith, contains-cons x y xs, contains-cons y x dead),
  Apart-cons x xs dead (ground (arith, contains-cons x y xs)) h.1,
)

pub deleted-Uses :
    (rs dead : List ℕ) (es : List Effect)
    → IsUnique rs
    → Apart rs dead
    → Uses (bury rs dead) es
    → Uses dead (map deleted rs ++ es)
unfolding bury
deleted-Uses [] dead es u h k = k
deleted-Uses (r ∷ rs) dead es u h k =
    (h.0, deleted-Uses rs (r ∷ dead) es u.1 (Apart-cons r rs dead u.0 h.1) k)

pub polled-Uses :
    (ss dead : List ℕ) (es : List Effect)
    → Apart ss dead
    → Uses dead es
    → Uses dead (map polled ss ++ es)
polled-Uses [] dead es h k = k
polled-Uses (s ∷ ss) dead es h k = (h.0, polled-Uses ss dead es h.1 k)

pub dispatch_from-Uses :
    (calls : ℕ → ℕ → List Call) (revents : ℕ → ℕ) (i : ℕ) (ss dead : List ℕ) (l : Loop)
    (es : List Effect)
    → Apart ss dead
    → Uses dead es
    → Uses dead ((dispatch_from calls revents i ss l).1 ++ es)
unfolding dispatch_from
dispatch_from-Uses calls revents i [] dead l es h k = k
dispatch_from-Uses calls revents i (s ∷ ss) dead l es h k =
    let rest =
      dispatch_from-Uses calls revents (i + 1) ss dead (dispatch_one calls s (revents i) l) es h.1
        k in
    elim (Bool-cases (revents i == 0)) [ inl idle ↦ rw idle rest | inr busy ↦ rw busy (h.0, rest) ]
