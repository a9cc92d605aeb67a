-- ===== src/EventLoop/Ending.antt =====
-- When EventLoop::run returns, and with what code.
use sdbus_cpp_examples.Prelude.{
  ℕ, ◌≡◌, refl, ◌≢◌, Bool, true, false, Option, none, some, List, [], ◌∷◌, ◌++◌, map, arith, ◌∙◌,
  ap, ◌⊎◌, ◌+◌, if_rule, All, inl, inr,
}
use sdbus_cpp_examples.Prelude.Int.{ℤ}
use sdbus_cpp_examples.EventLoop.{
  Loop, Effect, deleted, Call, adds, removes, retires, stops, perform, performs, Flow, continues,
  breaks, Turn, Poll, interrupted, failed, ready, first_source_idx, dispatch_one, dispatch_from,
  process, drain, serve, after_poll, stop_by, entered, pass, run_from, run, apply_pending, follow,
  remove,
}

run_from-off :
    (ts : List Turn) (l : Loop) → l.running ≡ false → run_from ts l ≡ (l, [], some l.exit_code)
unfolding run_from
run_from-off [] l off = rw off
run_from-off (t ∷ ts) l off =
    if_rule (λ (r : Loop × List Effect × Option ℤ). r ≡ (l, [], some l.exit_code)) l.running _ _
      (λ on. cc) (λ _. refl)

follow-code :
    (ts : List Turn) (l : Loop) (flow : Flow) (es : List Effect)
    → l.running ≡ false
    → (follow {A = Loop × List Effect × Option ℤ} flow
        ((run_from ts l).0, es ++ (run_from ts l).1, (run_from ts l).2)
        (l, es, some l.exit_code)).2
      ≡ some l.exit_code
follow-code ts l continues es off = rw (run_from-off ts l off)
follow-code ts l breaks es off = refl

-- Once a pass ends with the loop stopped, by whichever of its callbacks, the signal handler or
-- another thread, run() returns the code that was stored last, whatever the outside would do next.
pub run_from-stopped :
    (t : Turn) (ts : List Turn) (l : Loop)
    → l.running ≡ true
    → (pass t l).0.running ≡ false
    → (run_from (t ∷ ts) l).2 ≡ some (pass t l).0.exit_code
unfolding run_from
run_from-stopped t ts l on off =
    if_rule (λ (r : Loop × List Effect × Option ℤ). r.2 ≡ some (pass t l).0.exit_code) l.running _ _
      (λ _. follow-code ts (pass t l).0 (pass t l).2 (pass t l).1 off) (λ stopped. cc)

pub apply_pending-running :
    (l : Loop)
    → ((apply_pending l).running ≡ l.running) × ((apply_pending l).exit_code ≡ l.exit_code)
unfolding apply_pending
apply_pending-running l = (refl, refl)

pass_early :
    (t : Turn) (l : Loop) (c : ℤ)
    → t.early_stop ≡ some c
    → ((pass t l).0.running ≡ false)
      × ((pass t l).0.exit_code ≡ c)
      × ((pass t l).1 ≡ map deleted l.to_retire)
unfolding pass stop_by
pass_early t l c e = ground arith

pass_in_poll :
    (t : Turn) (l : Loop) (c : ℤ)
    → l.running ≡ true
    → t.early_stop ≡ none
    → t.poll_stop ≡ some c
    → t.poll ≡ interrupted
    → ((pass t l).0.running ≡ false) × ((pass t l).0.exit_code ≡ c)
unfolding pass stop_by after_poll
pass_in_poll t l c on e s p = ground (arith, apply_pending-running l)

-- In a pass of a running loop, a stop(c) that is made between the two tests of `running_`, or while
-- poll() blocks and a signal interrupts it, ends the run with the code c.
pub run_from-stop :
    (t : Turn) (ts : List Turn) (l : Loop) (c : ℤ)
    → l.running ≡ true
    → (t.early_stop ≡ some c)
      ⊎ ((t.early_stop ≡ none) × (t.poll_stop ≡ some c) × (t.poll ≡ interrupted))
    → (run_from (t ∷ ts) l).2 ≡ some c
run_from-stop t ts l c on (inl e) =
    let (off, code, quiet) = pass_early t l c e in run_from-stopped t ts l on off ∙ ap some code
run_from-stop t ts l c on (inr (e, s, p)) =
    let (off, code) = pass_in_poll t l c on e s p in run_from-stopped t ts l on off ∙ ap some code

-- A pass in which nobody stops the loop and nothing fails.
abbrev pub is_stop : Call → Bool
is_stop (stops c) = true
is_stop (adds s) = false
is_stop (removes s) = false
is_stop (retires s) = false

abbrev pub IsCalm : List Call → Type 0
IsCalm cs = All (λ c. is_stop c ≡ false) cs

pub record IsQuiet (t : Turn) : Type 0 where
  pub no_early_stop : t.early_stop ≡ none
  pub no_poll_stop : t.poll_stop ≡ none
  pub no_failure : t.poll ≢ failed
  pub no_throw : t.bus_throws ≡ false
  pub calm_bus : IsCalm t.bus_calls
  pub calm_sources : (s r : ℕ) → IsCalm (t.dispatch s r)

performs-running : (cs : List Call) (l : Loop) → IsCalm cs → (performs cs l).running ≡ l.running
unfolding performs perform
performs-running [] l h = refl
performs-running (adds s ∷ cs) l h = performs-running cs _ h.1 ∙ ground arith
performs-running (removes s ∷ cs) l h = performs-running cs _ h.1 ∙ ground arith
performs-running (retires s ∷ cs) l h = performs-running cs _ h.1 ∙ ground arith
performs-running (stops c ∷ cs) l h = cc

remove-running : (s : ℕ) (l : Loop) → (remove s l).running ≡ l.running
unfolding remove
remove-running s l = ground arith

dispatch_from-running :
    (calls : ℕ → ℕ → List Call) (revents : ℕ → ℕ) (i : ℕ) (ss : List ℕ) (l : Loop)
    → ((s r : ℕ) → IsCalm (calls s r))
    → (dispatch_from calls revents i ss l).0.running ≡ l.running
unfolding dispatch_from dispatch_one
dispatch_from-running calls revents i [] l h = refl
dispatch_from-running calls revents i (s ∷ ss) l h =
    dispatch_from-running calls revents (i + 1) ss (dispatch_one calls s (revents i) l) h
    ∙ ground (
      arith,
      performs-running (calls s (revents i)) l (h s (revents i)),
      remove-running s (performs (calls s (revents i)) l),
    )

serve-running :
    (t : Turn) (n : ℕ) (revents : ℕ → ℕ) (l : Loop)
    → IsQuiet t
    → ((serve t n revents l).0.running ≡ l.running) × ((serve t n revents l).2 ≡ continues)
unfolding serve process
serve-running t n revents l q = ground (
  arith,
  performs-running t.bus_calls l q.calm_bus,
  dispatch_from-running t.dispatch revents (first_source_idx t.event_fd) l.sources
      (process t n revents l) q.calm_sources,
)

after_poll-running :
    (t : Turn) (p : Poll) (l : Loop)
    → IsQuiet t
    → p ≢ failed
    → ((after_poll t p l).0.running ≡ l.running) × ((after_poll t p l).2 ≡ continues)
unfolding after_poll
after_poll-running t interrupted l q n = (refl, refl)
after_poll-running t failed l q n = absurd (n refl)
after_poll-running t (ready k revents) l q n =
    ground (arith, serve-running t k revents (drain t.event_fd revents l) q)

pass-running :
    (t : Turn) (l : Loop)
    → IsQuiet t
    → l.running ≡ true
    → ((pass t l).0.running ≡ true) × ((pass t l).2 ≡ continues)
unfolding pass stop_by
pass-running t l q on = ground (
  arith,
  q.no_early_stop,
  q.no_poll_stop,
  apply_pending-running l,
  after_poll-running t t.poll (stop_by t.poll_stop (entered t l)) q q.no_failure,
)

run_from-quiet :
    (ts : List Turn) (l : Loop) → All IsQuiet ts → l.running ≡ true → (run_from ts l).2 ≡ none
unfolding run_from
run_from-quiet [] l h on = rw on
run_from-quiet (t ∷ ts) l h on =
    let (on', onward) = pass-running t l h.0 on in
    ground (arith, on', onward, run_from-quiet ts (pass t l).0 h.1 on')

-- run() never returns of itself: while nobody calls stop() and neither poll() nor the bus fails, it
-- goes on, however many passes it makes.
pub run-quiet : (ts : List Turn) (l : Loop) → All IsQuiet ts → (run ts l).2 ≡ none
unfolding run
run-quiet ts l h = run_from-quiet ts (record l { running = true }) h refl
