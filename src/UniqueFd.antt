-- ===== src/UniqueFd.antt =====
-- src/utils/unique_fd.h: the owner of a file descriptor. A call of `::close` is an effect: each
-- operation returns the descriptors that it closes. `fd_` is an int; -1 is the empty wrapper.
pub mod Store
pub mod Ownership
use sdbus_cpp_examples.Prelude.{ℕ, Bool, true, false, not, ◌&&◌, if◌then◌else◌, ◌==◌, List, [], ◌∷◌}
use sdbus_cpp_examples.Prelude.Int.{ℤ, pos, negsuc}

pub record UniqueFd : Type 0 where
  pub fd : ℤ
  pub owns : Bool

-- The initialisers of the members.
abbrev pub no_fd : ℤ
no_fd = negsuc 0

abbrev pub empty : UniqueFd
empty = record { fd = no_fd; owns = true }

-- The explicit constructor, and Borrow.
abbrev pub adopt : ℤ → UniqueFd
adopt fd = record { fd = fd; owns = true }

abbrev pub borrow : ℤ → UniqueFd
borrow fd = record { fd = fd; owns = false }

abbrev pub is_valid_fd : ℤ → Bool
is_valid_fd (pos n) = true
is_valid_fd (negsuc n) = false

abbrev pub valid : UniqueFd → Bool
valid f = is_valid_fd f.fd

abbrev pub int_eq : ℤ → ℤ → Bool
int_eq (pos a) (pos b) = a == b
int_eq (pos a) (negsuc b) = false
int_eq (negsuc a) (pos b) = false
int_eq (negsuc a) (negsuc b) = a == b

-- The argument of `::close`, which is valid where it is called.
abbrev pub closing : ℤ → List ℕ
closing (pos n) = n ∷ []
closing (negsuc n) = []

-- UniqueFd::reset: the wrapper after it, and what it closes.
unfoldable pub reset : UniqueFd → ℤ → UniqueFd × List ℕ
reset f fd = (adopt fd, if f.owns && (valid f && not (int_eq f.fd fd)) then closing f.fd else [])

-- The destructor is `reset()`; what is left of the wrapper is not used again.
unfoldable pub destroy : UniqueFd → UniqueFd × List ℕ
unfolding reset
destroy f = reset f no_fd

-- UniqueFd::release: the wrapper after it, and the descriptor that the caller now answers for.
unfoldable pub release : UniqueFd → UniqueFd × ℤ
release f = (empty, f.fd)

-- The move constructor: the new wrapper, and what is left of the other.
unfoldable pub move_construct : UniqueFd → UniqueFd × UniqueFd
move_construct other = (record { fd = other.fd; owns = other.owns }, empty)

-- Move assignment from a distinct object: both wrappers after it, and what it closes.
unfoldable pub move_assign : UniqueFd → UniqueFd → UniqueFd × UniqueFd × List ℕ
unfolding reset
move_assign f other =
    let (g, closed) = reset f no_fd in
    (record g { fd = other.fd; owns = other.owns }, empty, closed)
