-- ===== src/Programs/Lifetime/Noticing.antt =====
-- src/utils/signal_handler.h: when monitorLoop notices that the connection is lost, and what else
-- ends it.
use sdbus_cpp_examples.Prelude.{
  ℕ, ◌+◌, ◌≡◌, refl, Bool, true, false, ◌||◌, none, some, List, [], ◌∷◌, leb, if◌then◌else◌, All,
  arith,
}
use sdbus_cpp_examples.Programs.Lifetime.{Round, lost, is_connection_alive, monitor_loop}

abbrev pub is_alive : Round → Bool
is_alive r = is_connection_alive r.made r.answered

-- The clock of some round stands at the time or later.
abbrev pub reaches : ℕ → List Round → Bool
reaches time [] = false
reaches time (r ∷ rs) = leb time r.now || reaches time rs

-- While no signal comes and no check succeeds, the monitor loop goes on until the clock is the check
-- interval past the last check, and then returns that the connection is lost.
pub monitor_loop-dead :
    (check_interval last_check : ℕ) (rs : List Round)
    → All (λ r. (r.running ≡ true) × (is_alive r ≡ false)) rs
    → monitor_loop check_interval last_check rs
      ≡ (if reaches (last_check + check_interval) rs then some (some lost) else none)
unfolding monitor_loop
monitor_loop-dead check_interval last_check [] h = refl
monitor_loop-dead check_interval last_check (r ∷ rs) (h, hs) =
    ground (arith, monitor_loop-dead check_interval last_check rs hs)

-- While no signal comes and every check succeeds, the monitor loop goes on.
pub monitor_loop-alive :
    (check_interval last_check : ℕ) (rs : List Round)
    → All (λ r. (r.running ≡ true) × (is_alive r ≡ true)) rs
    → monitor_loop check_interval last_check rs ≡ none
unfolding monitor_loop
monitor_loop-alive check_interval last_check [] h = refl
monitor_loop-alive check_interval last_check (r ∷ rs) (h, hs) = ground (
  arith,
  monitor_loop-alive check_interval last_check rs hs,
  monitor_loop-alive check_interval r.now rs hs,
)
