-- ===== src/UniqueFd/Store.antt =====
-- A program over a store of wrappers of src/utils/unique_fd.h.
use sdbus_cpp_examples.Prelude.{
  ℕ, zero, suc, ◌&&◌, if◌then◌else◌, ◌==◌, List, [], ◌∷◌, ◌++◌, Option, none, some, get_elem?,
}
use sdbus_cpp_examples.Prelude.Int.{ℤ}
use sdbus_cpp_examples.UniqueFd.{
  UniqueFd, adopt, borrow, int_eq, closing, reset, destroy, release, move_construct, move_assign,
}

-- The wrappers of the program by slot. A slot that is out of range is no wrapper.
abbrev pub Store : Type 0
Store = List UniqueFd

abbrev pub set : Store → ℕ → UniqueFd → Store
set [] i f = []
set (g ∷ s) zero f = f ∷ s
set (g ∷ s) (suc i) f = g ∷ set s i f

-- The descriptor that a wrapper must close some day.
unfoldable pub owned_by : UniqueFd → List ℕ
owned_by f = if f.owns then closing f.fd else []

unfoldable pub owned : Store → List ℕ
owned [] = []
owned (f ∷ s) = owned_by f ++ owned s

-- What a program does with wrappers; `assigns i j` is `w[i] = std::move(w[j])`.
pub data Op : Type 0 where
  adopts borrows : ℤ → Op
  moves destroys releases : ℕ → Op
  assigns : ℕ → ℕ → Op
  resets : ℕ → ℤ → Op

-- What a step hands to the wrappers, closes, and hands back.
pub record Ledger : Type 0 where
  pub acquired : List ℕ
  pub closed : List ℕ
  pub released : List ℕ

abbrev pub blank : Ledger
blank = record { acquired = []; closed = []; released = [] }

abbrev pub at : {A : Type 0} → Option UniqueFd → A → (UniqueFd → A) → A
at none out found = out
at (some f) out found = found f

-- A reset to the descriptor that is owned already acquires nothing.
abbrev pub taken : UniqueFd → ℤ → List ℕ
taken f fd = if f.owns && int_eq f.fd fd then [] else closing fd

unfoldable pub step : Store → Op → Store × Ledger
step s (adopts fd) = (adopt fd ∷ s, record blank { acquired = closing fd })
step s (borrows fd) = (borrow fd ∷ s, blank)
step s (moves j) =
    at (get_elem? s j) (s, blank)
      (λ other. let (f, left) = move_construct other in (f ∷ set s j left, blank))
step s (destroys i) =
    at (get_elem? s i) (s, blank)
      (λ f. let (g, cs) = destroy f in (set s i g, record blank { closed = cs }))
step s (releases i) =
    at (get_elem? s i) (s, blank)
      (λ f. let (g, fd) = release f in (set s i g, record blank { released = owned_by f }))
step s (assigns i j) =
    at (get_elem? s i) (s, blank)
      (λ f.
        at (get_elem? s j) (s, blank)
          (λ other.
            if i == j
            then (s, blank)
            else let (g, left, cs) = move_assign f other in
              (set (set s i g) j left, record blank { closed = cs })))
step s (resets i fd) =
    at (get_elem? s i) (s, blank)
      (λ f.
        let (g, cs) = reset f fd in
        (set s i g, record blank { acquired = taken f fd; closed = cs }))

unfoldable pub run : Store → List Op → Store × Ledger
run s [] = (s, blank)
run s (o ∷ os) =
    let (s', now) = step s o in
    let (s'', later) = run s' os in
    (
      s'',
      record {
        acquired = now.acquired ++ later.acquired;
        closed = now.closed ++ later.closed;
        released = now.released ++ later.released;
      },
    )
