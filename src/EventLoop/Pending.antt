-- ===== src/EventLoop/Pending.antt =====
-- What `apply_pending` makes of the source list.
use sdbus_cpp_examples.Prelude.{
  ℕ, ◌≡◌, refl, not, ◌&&◌, ◌||◌, List, [], ◌∷◌, arith, contains, contains-nil, contains-cons,
  contains-erase, contains-append, IsUnique, erase, erase-IsUnique, push-IsUnique, ◌++◌, Bool-cases,
  inl, inr,
}
use sdbus_cpp_examples.EventLoop.{Loop, erase_each, add_each, bury, apply_pending}

pub contains-erase_each :
    (a : ℕ) (rs xs : List ℕ)
    → contains a (erase_each rs xs) ≡ (not (contains a rs) && contains a xs)
unfolding erase_each
contains-erase_each a [] xs = rw (contains-nil a)
contains-erase_each a (r ∷ rs) xs =
    ground
      (arith, contains-erase_each a rs (erase r xs), contains-erase a r xs, contains-cons a r rs)

pub contains-add_each :
    (a : ℕ) (rs ps xs : List ℕ)
    → contains a (add_each rs ps xs) ≡ (contains a xs || contains a ps && not (contains a rs))
unfolding add_each
contains-add_each a rs [] xs = ground (arith, contains-nil a)
contains-add_each a rs (p ∷ ps) xs = ground (
  arith,
  contains-add_each a rs ps xs,
  contains-add_each a rs ps (xs ++ p ∷ []),
  contains-append a xs (p ∷ []),
  contains-cons a p [],
  contains-cons a p ps,
  contains-nil a,
)

erase_each-IsUnique : (rs xs : List ℕ) → IsUnique xs → IsUnique (erase_each rs xs)
unfolding erase_each
erase_each-IsUnique [] xs u = u
erase_each-IsUnique (r ∷ rs) xs u = erase_each-IsUnique rs (erase r xs) (erase-IsUnique r xs u)

add_each-IsUnique : (rs ps xs : List ℕ) → IsUnique xs → IsUnique (add_each rs ps xs)
unfolding add_each
add_each-IsUnique rs [] xs u = u
add_each-IsUnique rs (p ∷ ps) xs u = elim (Bool-cases (contains p rs || contains p xs)) [
  | inl skip ↦ rw skip (add_each-IsUnique rs ps xs u)
  | inr fresh ↦
      rw fresh (add_each-IsUnique rs ps (xs ++ p ∷ []) (push-IsUnique p xs (ground arith) u))
]

pub contains-apply_pending :
    (l : Loop) (a : ℕ)
    → contains a (apply_pending l).sources
      ≡ (not (contains a l.to_remove) && (contains a l.sources || contains a l.to_add))
unfolding apply_pending
contains-apply_pending l a = ground (
  arith,
  contains-add_each a l.to_remove l.to_add (erase_each l.to_remove l.sources),
  contains-erase_each a l.to_remove l.sources,
)

-- After `apply_pending` a source is polled exactly when it was not removed or retired in the round
-- and was polled before or added in the round; no source is polled twice, if none was before;
-- nothing stays pending.
pub apply_pending_sources :
    (l : Loop) (a : ℕ)
    → IsUnique l.sources
    → let l' = apply_pending l in
      (contains a l'.sources
        ≡ (not (contains a l.to_remove) && (contains a l.sources || contains a l.to_add)))
      × IsUnique l'.sources
      × (l'.to_add ≡ [])
      × (l'.to_remove ≡ [])
      × (l'.to_retire ≡ [])
unfolding apply_pending
apply_pending_sources l a u = (
  unfold apply_pending in contains-apply_pending l a,
  add_each-IsUnique l.to_remove l.to_add _ (erase_each-IsUnique l.to_remove l.sources u),
  refl,
  refl,
  refl,
)

pub contains-bury :
    (a : ℕ) (rs ds : List ℕ) → contains a (bury rs ds) ≡ (contains a rs || contains a ds)
unfolding bury
contains-bury a [] ds = ground (arith, contains-nil a)
contains-bury a (r ∷ rs) ds =
    ground (arith, contains-bury a rs (r ∷ ds), contains-cons a r ds, contains-cons a r rs)
