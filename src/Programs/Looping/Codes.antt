-- ===== src/Programs/Looping/Codes.antt =====
-- The exit codes of the programs that run an EventLoop.
use sdbus_cpp_examples.Prelude.{
  ℕ, ◌≡◌, refl, Bool, false, Option, none, some, List, [], ◌∷◌, All, ◌⊎◌, inl, inr, if_rule, ◌&&◌,
}
use sdbus_cpp_examples.Prelude.Int.{ℤ, pos}
use sdbus_cpp_examples.EventLoop.{
  Loop, Effect, Turn, Poll, interrupted, failed, ready, dbus_ready, first_source_idx, process,
  serve, after_poll, drain, stop_by, stop, entered, pass, run_from, run, add, apply_pending, Flow,
  continues, breaks, follow,
}
use sdbus_cpp_examples.Programs.Looping.{Start, add_client, prepare, run_main, main}
use sdbus_cpp_examples.Programs.Looping.Signalled.{
  StopsWithZero, performs-Holds, dispatch_from-Holds, wake-Holds,
}

abbrev pub IsCode : ℤ → Type 0
IsCode code = (code ≡ pos 0) ⊎ (code ≡ pos 1)

abbrev Q : Bool → ℤ → Type 0
Q running code = IsCode code

abbrev zero_stop : Q false (pos 0)
zero_stop = inl refl

abbrev pub IsZero : Option ℤ → Type 0
IsZero none = Unit
IsZero (some code) = code ≡ pos 0

-- Whoever stops the loop in a pass passes 0.
pub record IsPlain (t : Turn) : Type 0 where
  pub early : IsZero t.early_stop
  pub in_poll : IsZero t.poll_stop
  pub of_bus : StopsWithZero t.bus_calls
  pub of_sources : (x r : ℕ) → StopsWithZero (t.dispatch x r)

stop_by-IsCode :
    (o : Option ℤ) (l : Loop) → IsZero o → IsCode l.exit_code → IsCode (stop_by o l).exit_code
unfolding stop_by stop
stop_by-IsCode none l h c = c
stop_by-IsCode (some code) l h c = wake-Holds Q zero_stop _ (inl h)

drain-IsCode :
    (event_fd : Bool) (revents : ℕ → ℕ) (l : Loop)
    → IsCode l.exit_code
    → IsCode (drain event_fd revents l).exit_code
unfolding drain
drain-IsCode event_fd revents l c =
    if_rule (λ (l' : Loop). IsCode l'.exit_code) _ _ _ (λ _. c) (λ _. c)

process-IsCode :
    (t : Turn) (n : ℕ) (revents : ℕ → ℕ) (l : Loop)
    → IsPlain t
    → IsCode l.exit_code
    → IsCode (process t n revents l).exit_code
unfolding process
process-IsCode t n revents l p c =
    if_rule (λ (l' : Loop). IsCode l'.exit_code) (dbus_ready t.event_fd n revents) _ _
      (λ _. performs-Holds Q zero_stop t.bus_calls l p.of_bus c) (λ _. c)

serve-IsCode :
    (t : Turn) (n : ℕ) (revents : ℕ → ℕ) (l : Loop)
    → IsPlain t
    → IsCode l.exit_code
    → IsCode (serve t n revents l).0.exit_code
unfolding serve
serve-IsCode t n revents l p c =
    if_rule (λ (r : Loop × List Effect × Flow). IsCode r.0.exit_code)
      (dbus_ready t.event_fd n revents && t.bus_throws) _ _ (λ _. inr refl)
      (λ _.
        dispatch_from-Holds Q zero_stop t.dispatch revents (first_source_idx t.event_fd) l.sources
          (process t n revents l) p.of_sources (process-IsCode t n revents l p c))

after_poll-IsCode :
    (t : Turn) (o : Poll) (l : Loop)
    → IsPlain t
    → IsCode l.exit_code
    → IsCode (after_poll t o l).0.exit_code
unfolding after_poll
after_poll-IsCode t interrupted l p c = c
after_poll-IsCode t failed l p c = inr refl
after_poll-IsCode t (ready n revents) l p c =
    serve-IsCode t n revents (drain t.event_fd revents l) p (drain-IsCode t.event_fd revents l c)

pass-IsCode : (t : Turn) (l : Loop) → IsPlain t → IsCode l.exit_code → IsCode (pass t l).0.exit_code
unfolding pass apply_pending
pass-IsCode t l p c =
    let c' = stop_by-IsCode t.early_stop (apply_pending l) p.early c in
    if_rule (λ (r : Loop × List Effect × Flow). IsCode r.0.exit_code) (entered t l).running _ _
      (λ _. after_poll-IsCode t t.poll _ p (stop_by-IsCode t.poll_stop (entered t l) p.in_poll c'))
      (λ _. c')

-- A program that has ended has a code.
abbrev pub Ends : Option ℤ → Type 0
Ends none = Unit
Ends (some code) = IsCode code

follow-Ends :
    (flow : Flow) (rest out : Loop × List Effect × Option ℤ)
    → Ends rest.2
    → Ends out.2
    → Ends (follow flow rest out).2
follow-Ends continues rest out h k = h
follow-Ends breaks rest out h k = k

run_from-Ends :
    (ts : List Turn) (l : Loop) → All IsPlain ts → IsCode l.exit_code → Ends (run_from ts l).2
unfolding run_from
run_from-Ends [] l h c = if_rule (λ (o : Option ℤ). Ends o) l.running _ _ (λ _. tt) (λ _. c)
run_from-Ends (t ∷ ts) l h c =
    let c' = pass-IsCode t l h.0 c in
    if_rule (λ (r : Loop × List Effect × Option ℤ). Ends r.2) l.running _ _
      (λ _. follow-Ends (pass t l).2 _ _ (run_from-Ends ts (pass t l).0 h.1 c') c') (λ _. c)

add_client-IsCode :
    (client : Option ℕ) (l : Loop) → IsCode l.exit_code → IsCode (add_client client l).exit_code
unfolding add_client add
add_client-IsCode none l c = c
add_client-IsCode (some client) l c = wake-Holds Q zero_stop _ c

abbrev Prepared : Option Loop → Type 0
Prepared none = Unit
Prepared (some l) = IsCode l.exit_code

prepare-Prepared : (s : Start) → StopsWithZero s.constructs → Prepared (prepare s)
unfolding prepare add
prepare-Prepared s z =
    if_rule Prepared s.connects _ _
      (λ _.
        if_rule Prepared s.throws _ _ (λ _. tt)
          (λ _.
            add_client-IsCode s.client _
              (performs-Holds Q zero_stop s.constructs _ z (wake-Holds Q zero_stop _ (inl refl)))))
      (λ _. tt)

run_main-Ends :
    (ts : List Turn) (o : Option Loop) → All IsPlain ts → Prepared o → Ends (run_main ts o)
unfolding run_main run
run_main-Ends ts none h c = inr refl
run_main-Ends ts (some l) h c = run_from-Ends ts _ h c

-- Whatever the kernel, the bus and the sources do, if each stop() passes 0 then a program that has
-- ended has the exit code 0 or 1.
pub main-Ends :
    (s : Start) (ts : List Turn) → StopsWithZero s.constructs → All IsPlain ts → Ends (main s ts)
unfolding main
main-Ends s ts z h = run_main-Ends ts (prepare s) h (prepare-Prepared s z)
