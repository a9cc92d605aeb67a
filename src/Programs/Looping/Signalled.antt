-- ===== src/Programs/Looping/Signalled.antt =====
-- How a program that runs an EventLoop ends: by a signal, with the code 0, or by a failure, with 1.
use mathlib.Core.Option.{some-injective}
use sdbus_cpp_examples.Prelude.{
  ℕ, zero, suc, ◌+◌, ◌≡◌, ◌≢◌, refl, Bool, true, false, none, some, List, [], ◌∷◌, ◌∙◌, ap, arith,
  All, get_elem?, ◌==◌, ==_iff, if_rule, sym, subst,
}
use sdbus_cpp_examples.Prelude.Int.{ℤ, pos}
use sdbus_cpp_examples.EventLoop.{
  Loop, Call, adds, removes, retires, stops, perform, performs, Turn, ready, first_source_idx,
  dispatch_one, dispatch_from, pass, process, serve, after_poll, drain, stop_by, run_from, add,
  remove, retire, stop, wake, hung_up, apply_pending,
}
use sdbus_cpp_examples.EventLoop.Ending.{run_from-stopped, apply_pending-running}

-- Whoever calls stop() passes 0.
abbrev pub PassesZero : Call → Type 0
PassesZero (stops c) = c ≡ pos 0
PassesZero (adds s) = Unit
PassesZero (removes s) = Unit
PassesZero (retires s) = Unit

abbrev pub StopsWithZero : List Call → Type 0
StopsWithZero cs = All PassesZero cs

-- What a stop(0) establishes, and the other calls keep.
module _ (Q : Bool → ℤ → Type 0) (stopped : Q false (pos 0)) where
  abbrev pub Holds : Loop → Type 0
  Holds l = Q l.running l.exit_code

  pub wake-Holds : (l : Loop) → Holds l → Holds (wake l)
  unfolding wake
  wake-Holds l s =
      if_rule (λ (l' : Loop). Q l'.running l'.exit_code) l.wake_valid _ _ (λ _. s) (λ _. s)

  pub performs-Holds :
      (cs : List Call) (l : Loop) → StopsWithZero cs → Holds l → Holds (performs cs l)
  unfolding performs perform add remove retire stop
  performs-Holds [] l h s = s
  performs-Holds (adds x ∷ cs) l h s = performs-Holds cs _ h.1 (wake-Holds _ s)
  performs-Holds (removes x ∷ cs) l h s = performs-Holds cs _ h.1 (wake-Holds _ s)
  performs-Holds (retires x ∷ cs) l h s = performs-Holds cs _ h.1 (wake-Holds _ s)
  performs-Holds (stops c ∷ cs) l h s =
      performs-Holds cs _ h.1 (wake-Holds _ (subst (Q false) (sym h.0) stopped))

  remove-Holds : (x : ℕ) (l : Loop) → Holds l → Holds (remove x l)
  unfolding remove
  remove-Holds x l s = wake-Holds _ s

  dispatch_one-Holds :
      (calls : ℕ → ℕ → List Call) (x r : ℕ) (l : Loop)
      → StopsWithZero (calls x r)
      → Holds l
      → Holds (dispatch_one calls x r l)
  unfolding dispatch_one
  dispatch_one-Holds calls x r l h s =
      let after = performs-Holds (calls x r) l h s in
      if_rule (λ (l' : Loop). Q l'.running l'.exit_code) (r == 0) _ _ (λ _. s)
        (λ _.
          if_rule (λ (l' : Loop). Q l'.running l'.exit_code) (hung_up r) _ _
            (λ _. remove-Holds x (performs (calls x r) l) after) (λ _. after))

  pub dispatch_from-Holds :
      (calls : ℕ → ℕ → List Call) (revents : ℕ → ℕ) (i : ℕ) (ss : List ℕ) (l : Loop)
      → ((x r : ℕ) → StopsWithZero (calls x r))
      → Holds l
      → Holds (dispatch_from calls revents i ss l).0
  unfolding dispatch_from
  dispatch_from-Holds calls revents i [] l h s = s
  dispatch_from-Holds calls revents i (x ∷ ss) l h s =
      dispatch_from-Holds calls revents (i + 1) ss _ h
        (dispatch_one-Holds calls x (revents i) l (h x (revents i)) s)

-- The loop was stopped with the code 0.
abbrev pub IsStopped : Bool → ℤ → Type 0
IsStopped running code = (running ≡ false) × (code ≡ pos 0)

-- The dispatch of the signal source is stop(0), whatever the poll reports of it.
abbrev pub Stops : ℕ → (ℕ → ℕ → List Call) → Type 0
Stops signals calls = (r : ℕ) → calls signals r ≡ stops (pos 0) ∷ []

stops-IsStopped :
    (l : Loop)
    → IsStopped
        (performs (stops (pos 0) ∷ []) l).running
        (performs (stops (pos 0) ∷ []) l).exit_code
unfolding performs perform stop
stops-IsStopped l = wake-Holds IsStopped (refl, refl) _ (refl, refl)

stop_one :
    (calls : ℕ → ℕ → List Call) (signals r : ℕ) (l : Loop)
    → Stops signals calls
    → r ≢ 0
    → IsStopped (dispatch_one calls signals r l).running (dispatch_one calls signals r l).exit_code
unfolding dispatch_one
stop_one calls signals r l h n =
    let after : IsStopped (performs (calls signals r) l).running
        (performs (calls signals r) l).exit_code =
      rw (h r) (stops-IsStopped l) in
    if_rule (λ (l' : Loop). IsStopped l'.running l'.exit_code) (r == 0) _ _
      (λ e. absurd (n ((==_iff r 0).0 e)))
      (λ _.
        if_rule (λ (l' : Loop). IsStopped l'.running l'.exit_code) (hung_up r) _ _
          (λ _. remove-Holds IsStopped (refl, refl) signals (performs (calls signals r) l) after)
          (λ _. after))

-- Whatever the sources behind it do, the signal source among those dispatched stops the loop.
dispatch_from-signal :
    (calls : ℕ → ℕ → List Call) (revents : ℕ → ℕ) (signals k i : ℕ) (ss : List ℕ) (l : Loop)
    → ((x r : ℕ) → StopsWithZero (calls x r))
    → Stops signals calls
    → get_elem? ss k ≡ some signals
    → revents (i + k) ≢ 0
    → IsStopped
        (dispatch_from calls revents i ss l).0.running
        (dispatch_from calls revents i ss l).0.exit_code
unfolding dispatch_from
dispatch_from-signal calls revents signals k i [] l h z e n = cc
dispatch_from-signal calls revents signals zero i (x ∷ ss) l h z e n =
    dispatch_from-Holds IsStopped (refl, refl) calls revents (i + 1) ss _ h
      (subst
        (λ y.
          IsStopped (dispatch_one calls y (revents i) l).running
            (dispatch_one calls y (revents i) l).exit_code)
        (sym (some-injective x signals e))
        (stop_one calls signals (revents i) l z (subst (λ j. revents j ≢ 0) (omega arith) n)))
dispatch_from-signal calls revents signals (suc k) i (x ∷ ss) l h z e n =
    dispatch_from-signal calls revents signals k (i + 1) ss _ h z e
      (subst (λ j. revents j ≢ 0) (omega arith) n)

-- A pass in which the kernel reports something of the signal source, and nothing fails.
pub record Signals (signals k : ℕ) (t : Turn) (l : Loop) : Type 0 where
  pub count : ℕ
  pub revents : ℕ → ℕ
  pub polled : get_elem? (apply_pending l).sources k ≡ some signals
  pub reported : revents (first_source_idx t.event_fd + k) ≢ 0
  pub answered : t.poll ≡ ready count revents
  pub no_early_stop : t.early_stop ≡ none
  pub no_poll_stop : t.poll_stop ≡ none
  pub no_throw : t.bus_throws ≡ false
  pub stops_with_zero : (x r : ℕ) → StopsWithZero (t.dispatch x r)
  pub stops : Stops signals t.dispatch

serve-signal :
    (t : Turn) (signals k n : ℕ) (revents : ℕ → ℕ) (l : Loop)
    → t.bus_throws ≡ false
    → ((x r : ℕ) → StopsWithZero (t.dispatch x r))
    → Stops signals t.dispatch
    → get_elem? l.sources k ≡ some signals
    → revents (first_source_idx t.event_fd + k) ≢ 0
    → IsStopped (serve t n revents l).0.running (serve t n revents l).0.exit_code
unfolding serve
serve-signal t signals k n revents l calm h z e m =
    let ended =
      dispatch_from-signal t.dispatch revents signals k (first_source_idx t.event_fd) l.sources
        (process t n revents l) h z e m in
    ground (arith, calm, ended)

drain-sources :
    (event_fd : Bool) (revents : ℕ → ℕ) (l : Loop) → (drain event_fd revents l).sources ≡ l.sources
unfolding drain
drain-sources event_fd revents l = ground arith

pass-signal :
    (signals k : ℕ) (t : Turn) (l : Loop)
    → l.running ≡ true
    → Signals signals k t l
    → IsStopped (pass t l).0.running (pass t l).0.exit_code
unfolding pass after_poll stop_by
pass-signal signals k t l on s =
    let drained = drain t.event_fd s.revents (apply_pending l) in
    let polled : get_elem? drained.sources k ≡ some signals =
      rw (drain-sources t.event_fd s.revents (apply_pending l)) s.polled in
    let ended =
      serve-signal t signals k s.count s.revents drained s.no_throw s.stops_with_zero s.stops polled
        s.reported in
    ground (arith, apply_pending-running l, s.no_early_stop, s.no_poll_stop, s.answered, ended)

-- In a pass of a running loop in which the kernel reports the signal source, nothing fails and
-- nobody calls stop() with another code, the source's stop(0) ends the run with the code 0,
-- whatever the other sources do.
pub run_from-signal :
    (signals k : ℕ) (t : Turn) (ts : List Turn) (l : Loop)
    → l.running ≡ true
    → Signals signals k t l
    → (run_from (t ∷ ts) l).2 ≡ some (pos 0)
run_from-signal signals k t ts l on s =
    let (off, code) = pass-signal signals k t l on s in
    run_from-stopped t ts l on off ∙ ap some code
