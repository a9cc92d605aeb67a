-- ===== src/Examples/Lives.antt =====
-- The programs: a lost connection, a signal, and a service that refuses to start.
use sdbus_cpp_examples.Prelude.{
  ℕ, ◌≡◌, refl, true, false, none, some, List, [], ◌∷◌, if◌then◌else◌, ◌==◌, All, if_rule,
}
use sdbus_cpp_examples.Prelude.Int.{pos}
use sdbus_cpp_examples.Programs.Lifetime.{Round, lost, monitor_loop}
use sdbus_cpp_examples.Programs.Lifetime.Noticing.{reaches, monitor_loop-dead}
use sdbus_cpp_examples.Programs.Reconnecting.{
  Attempt, refused, monitored, thrown, reconnect, delay_after,
}
use sdbus_cpp_examples.Programs.Reconnecting
use sdbus_cpp_examples.Programs.Reconnecting.Backoff.{Allowed, refusals, doublings, main-delays}
use sdbus_cpp_examples.Programs.Looping.{Start, prepare, run_main, add_client}
use sdbus_cpp_examples.Programs.Looping
use sdbus_cpp_examples.Programs.Looping.Signalled.{StopsWithZero, Signals, run_from-signal}
use sdbus_cpp_examples.Programs.Looping.Codes.{IsPlain, Ends, main-Ends}
use sdbus_cpp_examples.EventLoop.{
  Loop, new_loop, Call, adds, stops, Turn, ready, apply_pending, run_from, add_each, erase_each,
}

-- A round every five seconds.
abbrev silence : ℕ → Round
silence time = record { running = true; now = time; made = true; answered = false }

abbrev rounds : List Round
rounds = silence 105 ∷ silence 120 ∷ silence 131 ∷ silence 140 ∷ []

monitor_loop-dead_example :
    monitor_loop 30 100 rounds ≡ (if reaches 130 rounds then some (some lost) else none)
monitor_loop-dead_example =
    monitor_loop-dead 30 100 rounds
      ((refl, refl), ((refl, refl), ((refl, refl), ((refl, refl), tt))))

monitor_loop_test : monitor_loop 30 100 rounds ≡ some (some lost)
unfolding monitor_loop
monitor_loop_test = refl

abbrev attempts : List Attempt
attempts =
    record { running = true; outcome = refused; still_running = true }
    ∷ record { running = true; outcome = refused; still_running = true }
    ∷ record { running = true; outcome = monitored; still_running = true }
    ∷ record { running = true; outcome = thrown; still_running = false }
    ∷ []

main-delays_example :
    All Allowed (Reconnecting.main attempts).0
    × ((Reconnecting.main (refusals 3)).0 ≡ doublings 3 1)
main-delays_example = main-delays attempts 3

main_test : Reconnecting.main attempts ≡ (1 ∷ 2 ∷ 1 ∷ [], some 0)
unfolding reconnect delay_after
main_test = refl

-- The signal source is 3, and stops the loop when it is dispatched; source 5 is polled as well.
abbrev on_signal : ℕ → ℕ → List Call
on_signal s r = if s == 3 then stops (pos 0) ∷ [] else adds 9 ∷ []

abbrev interrupt : Turn
interrupt = record {
  early_stop = none;
  poll_stop = none;
  event_fd = false;
  poll = ready 1 (λ k. if k == 2 then 1 else 0);
  bus_calls = [];
  bus_throws = false;
  dispatch = on_signal;
}

abbrev program : Loop
program = record (new_loop true) { running = true; sources = 3 ∷ 5 ∷ [] }

abbrev zero_only : (s r : ℕ) → StopsWithZero (on_signal s r)
zero_only s r = if_rule StopsWithZero (s == 3) _ _ (λ _. (refl, tt)) (λ _. (tt, tt))

interrupted_program : Signals 3 0 interrupt program
unfolding apply_pending add_each erase_each
interrupted_program = record {
  count = 1;
  revents = λ k. if k == 2 then 1 else 0;
  polled = refl;
  reported = λ e. cc;
  answered = refl;
  no_early_stop = refl;
  no_poll_stop = refl;
  no_throw = refl;
  stops_with_zero = zero_only;
  stops = λ r. refl;
}

run_from-signal_example : (run_from (interrupt ∷ []) program).2 ≡ some (pos 0)
run_from-signal_example = run_from-signal 3 0 interrupt [] program refl interrupted_program

abbrev service : Start
service = record {
  wakes = true;
  connects = true;
  constructs = adds 5 ∷ [];
  throws = false;
  signals = 3;
  client = none;
}

interrupt-IsPlain : IsPlain interrupt
interrupt-IsPlain = record { early = tt; in_poll = tt; of_bus = tt; of_sources = zero_only }

main-Ends_example : Ends (Looping.main service (interrupt ∷ []))
main-Ends_example = main-Ends service (interrupt ∷ []) (tt, tt) (interrupt-IsPlain, tt)
