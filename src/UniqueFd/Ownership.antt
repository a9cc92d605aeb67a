-- ===== src/UniqueFd/Ownership.antt =====
-- Every descriptor of a program over a store of wrappers is closed or handed out exactly once.
use mathlib.Core.Option.{some-injective}
use sdbus_cpp_examples.Prelude.{
  ℕ, zero, suc, ◌+◌, ◌≡◌, refl, false, ◌==◌, List, [], ◌∷◌, Option, none, some, arith, count,
  count-nil, count-append, get_elem?, ap, if_rule, ◌∙◌,
}
use sdbus_cpp_examples.Prelude.Int.{ℤ}
use sdbus_cpp_examples.UniqueFd.{
  UniqueFd, adopt, borrow, closing, reset, destroy, release, move_construct, move_assign,
}
use sdbus_cpp_examples.UniqueFd.Store.{
  Store, set, owned_by, owned, Op, adopts, borrows, moves, destroys, releases, assigns, resets,
  Ledger, blank, at, taken, step, run,
}

count-set :
    (a : ℕ) (s : Store) (i : ℕ) (f g : UniqueFd)
    → get_elem? s i ≡ some f
    → count a (owned (set s i g)) + count a (owned_by f) ≡ count a (owned s) + count a (owned_by g)
unfolding owned
count-set a [] i f g e = cc
count-set a (h ∷ s) zero f g e = omega (
  arith,
  count-append a (owned_by h) (owned s),
  count-append a (owned_by g) (owned s),
  ap (λ x. count a (owned_by x)) (some-injective h f e),
)
count-set a (h ∷ s) (suc i) f g e = omega (
  arith,
  count-append a (owned_by h) (owned s),
  count-append a (owned_by h) (owned (set s i g)),
  count-set a s i f g e,
)

get_elem?-set_ne :
    (s : Store) (i j : ℕ) (f : UniqueFd)
    → (i == j) ≡ false
    → get_elem? (set s i f) j ≡ get_elem? s j
get_elem?-set_ne [] i j f n = refl
get_elem?-set_ne (h ∷ s) zero zero f n = cc
get_elem?-set_ne (h ∷ s) zero (suc j) f n = refl
get_elem?-set_ne (h ∷ s) (suc i) zero f n = refl
get_elem?-set_ne (h ∷ s) (suc i) (suc j) f n = get_elem?-set_ne s i j f (ground arith)

-- The books of each operation on the wrappers that it touches.
reset-count :
    (a : ℕ) (f : UniqueFd) (fd : ℤ)
    → count a (owned_by f) + count a (taken f fd)
      ≡ count a (owned_by (reset f fd).0) + count a (reset f fd).1
unfolding reset owned_by count
reset-count a f fd = ground arith

destroy-count :
    (a : ℕ) (f : UniqueFd)
    → count a (owned_by f) ≡ count a (owned_by (destroy f).0) + count a (destroy f).1
unfolding destroy owned_by count
destroy-count a f = ground arith

release-count : (a : ℕ) (f : UniqueFd) → count a (owned_by (release f).0) ≡ 0
unfolding release owned_by count
release-count a f = ground arith

move_construct-count :
    (a : ℕ) (f : UniqueFd)
    → count a (owned_by f)
      ≡ count a (owned_by (move_construct f).0) + count a (owned_by (move_construct f).1)
unfolding move_construct owned_by count
move_construct-count a f = ground arith

move_assign-count :
    (a : ℕ) (f g : UniqueFd)
    → count a (owned_by f) + count a (owned_by g)
      ≡ count a (owned_by (move_assign f g).0)
        + count a (owned_by (move_assign f g).1)
        + count a (move_assign f g).2
unfolding move_assign owned_by count
move_assign-count a f g = ground arith

-- The books of a step balance: what was owned and what came in is owned, closed or handed out.
abbrev pub Balances : ℕ → Store → Store × Ledger → Type 0
Balances a s r =
    count a (owned s) + count a r.1.acquired
    ≡ count a (owned r.0) + count a r.1.closed + count a r.1.released

blank-Balances : (a : ℕ) (s : Store) → Balances a s (s, blank)
blank-Balances a s = omega (arith, count-nil a)

-- A step on the wrapper of slot `i`, in range or not.
at_rule :
    (P : Store × Ledger → Type 0) (o : Option UniqueFd) (out : Store × Ledger)
    (found : UniqueFd → Store × Ledger)
    → P out
    → ((f : UniqueFd) → o ≡ some f → P (found f))
    → P (at o out found)
at_rule P none out found h k = h
at_rule P (some f) out found h k = k f refl

count_cons :
    (a : ℕ) (f : UniqueFd) (s : Store)
    → count a (owned (f ∷ s)) ≡ count a (owned_by f) + count a (owned s)
unfolding owned
count_cons a f s = count-append a (owned_by f) (owned s)

step-Balances : (a : ℕ) (s : Store) (o : Op) → Balances a s (step s o)
unfolding step
step-Balances a s (adopts fd) = omega (arith, count_cons a (adopt fd) s, count-nil a, adopted)
  where
    adopted : count a (owned_by (adopt fd)) ≡ count a (closing fd)
    adopted = unfold owned_by in refl
step-Balances a s (borrows fd) = omega (arith, count_cons a (borrow fd) s, count-nil a, borrowed)
  where
    borrowed : count a (owned_by (borrow fd)) ≡ 0
    borrowed = unfold owned_by in count-nil a
step-Balances a s (moves j) =
    at_rule (Balances a s) (get_elem? s j) _ _ (blank-Balances a s) (λ f e. omega (
      arith,
      count_cons a (move_construct f).0 (set s j (move_construct f).1),
      count-set a s j f (move_construct f).1 e,
      move_construct-count a f,
      count-nil a,
    ))
step-Balances a s (destroys i) =
    at_rule (Balances a s) (get_elem? s i) _ _ (blank-Balances a s)
      (λ f e. omega (arith, count-set a s i f (destroy f).0 e, destroy-count a f, count-nil a))
step-Balances a s (releases i) =
    at_rule (Balances a s) (get_elem? s i) _ _ (blank-Balances a s)
      (λ f e. omega (arith, count-set a s i f (release f).0 e, release-count a f, count-nil a))
step-Balances a s (assigns i j) =
    at_rule (Balances a s) (get_elem? s i) _ _ (blank-Balances a s) (λ f e.
      at_rule (Balances a s) (get_elem? s j) _ _ (blank-Balances a s) (λ g d.
        if_rule (Balances a s) (i == j) _ _ (λ same. blank-Balances a s)
          (λ apart. omega (
            arith,
            count-set a s i f (move_assign f g).0 e,
            count-set a (set s i (move_assign f g).0) j g (move_assign f g).1
                (get_elem?-set_ne s i j (move_assign f g).0 apart ∙ d),
            move_assign-count a f g,
            count-nil a,
          ))))
step-Balances a s (resets i fd) =
    at_rule (Balances a s) (get_elem? s i) _ _ (blank-Balances a s)
      (λ f e. omega (arith, count-set a s i f (reset f fd).0 e, reset-count a f fd, count-nil a))

-- Over any program on any wrappers the books balance for every descriptor: each that came in is
-- owned still, or was closed, or was handed out by release(), as often as it came in.
pub run-Balances : (a : ℕ) (s : Store) (os : List Op) → Balances a s (run s os)
unfolding run
run-Balances a s [] = blank-Balances a s
run-Balances a s (o ∷ os) =
    let now = (step s o).1 in
    let later = (run (step s o).0 os).1 in
    omega (
      arith,
      step-Balances a s o,
      run-Balances a (step s o).0 os,
      count-append a now.acquired later.acquired,
      count-append a now.closed later.closed,
      count-append a now.released later.released,
    )
