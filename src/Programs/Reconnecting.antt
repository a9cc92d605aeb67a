-- ===== src/Programs/Reconnecting.antt =====
-- src/connman/main.cc: the loop that connects again after the connection was lost, with a delay that
-- doubles. Seconds are numbers; `g_running` where it is read is what an `Attempt` says.
pub mod Backoff
use sdbus_cpp_examples.Prelude.{
  ℕ, ◌*◌, Bool, true, false, Option, none, some, List, [], ◌∷◌, min, if◌then◌else◌,
}

-- What becomes of a connection: an exception before the client is there, the monitor loop with
-- what it returns, or an exception in what follows the client's construction.
pub data Outcome : Type 0 where
  refused : Outcome
  monitored : Outcome
  thrown : Outcome

-- One round of the while loop: `g_running` at its head, what becomes of the connection, and
-- `g_running` after it.
pub record Attempt : Type 0 where
  pub running : Bool
  pub outcome : Outcome
  pub still_running : Bool

abbrev pub initial_reconnect_delay : ℕ
initial_reconnect_delay = 1

abbrev pub max_reconnect_delay : ℕ
max_reconnect_delay = 30

-- The delay when the attempt is over.
unfoldable pub delay_after : Outcome → ℕ → ℕ
delay_after refused delay = delay
delay_after monitored delay = initial_reconnect_delay
delay_after thrown delay = initial_reconnect_delay

abbrev pub next_delay : ℕ → ℕ
next_delay delay = min (delay * 2) max_reconnect_delay

-- main, over the attempts that the outside grants: the delays that it sleeps, and the exit code
-- when it returns.
unfoldable pub reconnect : ℕ → List Attempt → List ℕ × Option ℕ
reconnect delay [] = ([], none)
reconnect delay (a ∷ as') =
    let slept = delay_after a.outcome delay in
    let rest = reconnect (next_delay slept) as' in
    if a.running
    then (if a.still_running then (slept ∷ rest.0, rest.1) else ([], some 0))
    else ([], some 0)

abbrev pub main : List Attempt → List ℕ × Option ℕ
main attempts = reconnect initial_reconnect_delay attempts
