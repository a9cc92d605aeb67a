-- ===== src/Programs/Lifetime.antt =====
-- src/utils/signal_handler.h: the signal handler, the check of a connection and the monitor loop.
-- `g_running` is read once in each round, the clock after the sleep; both are what a `Round` says.
pub mod Noticing
use sdbus_cpp_examples.Prelude.{
  ℕ, ◌+◌, Bool, true, false, not, ◌&&◌, Option, none, some, List, [], ◌∷◌, ◌++◌, leb, ◌==◌,
  if◌then◌else◌,
}
use sdbus_cpp_examples.Prelude.Text.{Text, text}

-- Linux's SIGINT, SIGPIPE and SIGTERM.
abbrev pub sigint : ℕ
sigint = 2

abbrev pub sigpipe : ℕ
sigpipe = 13

abbrev pub sigterm : ℕ
sigterm = 15

-- What the handler writes to stderr, and `g_running` after it.
unfoldable pub signal_handler : ℕ → Text × Bool
signal_handler signum =
    let signame =
      if signum == sigint
      then text "SIGINT"
      else if signum == sigterm
      then text "SIGTERM"
      else text "UNKNOWN" in
    (
      text "Received signal "
          ++ (signame ++ (text " - initiating graceful shutdown" ++ b'\n' ∷ [])),
      false,
    )

pub data Disposition : Type 0 where
  handled ignored : Disposition

-- installSignalHandlers, as the calls of std::signal.
abbrev pub install_signal_handlers : List (ℕ × Disposition)
install_signal_handlers = (sigint, handled) ∷ (sigterm, handled) ∷ (sigpipe, ignored) ∷ []

-- isConnectionAlive, given whether createProxy and the call of GetId throw nothing.
abbrev pub is_connection_alive : Bool → Bool → Bool
is_connection_alive made answered = made && answered

pub record Round : Type 0 where
  pub running : Bool
  pub now : ℕ
  pub made : Bool
  pub answered : Bool

abbrev pub lost : Text
lost = text "D-Bus connection lost"

-- monitorLoop, over the rounds that the outside grants: `none` while it goes on, else what it
-- returns.
unfoldable pub monitor_loop : ℕ → ℕ → List Round → Option (Option Text)
monitor_loop check_interval last_check [] = none
monitor_loop check_interval last_check (r ∷ rs) =
    let due = leb (last_check + check_interval) r.now in
    let rest = monitor_loop check_interval (if due then r.now else last_check) rs in
    if r.running
    then (if due && not (is_connection_alive r.made r.answered) then some (some lost) else rest)
    else some none
