-- ===== src/Examples/Loops.antt =====
-- The event loop: a device arrives over the bus, hangs up and is retired by its callback.
use mathlib.Core.Option.{some-injective}
use sdbus_cpp_examples.Prelude.{
  ℕ, ◌≡◌, refl, true, false, not, ◌&&◌, ◌||◌, none, some, List, [], ◌∷◌, ◌==◌, if◌then◌else◌,
  contains, erase, IsUnique, zero, suc, ap, get_elem?,
}
use sdbus_cpp_examples.Prelude.Int.{pos}
use sdbus_cpp_examples.EventLoop.{
  Loop, new_loop, Call, adds, removes, retires, perform, performs, Turn, interrupted, ready, Pollfd,
  bus, bus_event, wake_up, source, pollfds, apply_pending, add_each, erase_each, bury, drain,
  process, dispatch_one, dispatch_from, serve, after_poll, stop_by, pass, run_from, run, add,
  remove, retire, stop, wake, hung_up, first_source_idx,
}
use sdbus_cpp_examples.EventLoop.Pending.{apply_pending_sources}
use sdbus_cpp_examples.EventLoop.Polling.{reported, dispatch_own_events}
use sdbus_cpp_examples.EventLoop.Safety.{Inv, new_loop-Inv, LegalRun}
use sdbus_cpp_examples.EventLoop.Trace.{run-Uses}
use sdbus_cpp_examples.EventLoop.Trace.Effects.{Uses}
use sdbus_cpp_examples.EventLoop.Running.{saw_hangup, pass-hangup_dropped}
use sdbus_cpp_examples.EventLoop.Ending.{IsQuiet, run-quiet}

abbrev start : Loop
start = record (new_loop true) { running = true }

-- Source 1 goes, 2 is added twice, 4 is added and retired in one round.
abbrev busy : Loop
busy = record start {
  sources = 1 ∷ 2 ∷ [];
  to_add = 3 ∷ 2 ∷ 4 ∷ [];
  to_remove = 1 ∷ 4 ∷ [];
  to_retire = 4 ∷ [];
}

busy-IsUnique : IsUnique busy.sources
unfolding contains
busy-IsUnique = (refl, (refl, tt))

apply_pending_sources_example :
    let l' = apply_pending busy in
    (contains 4 l'.sources
      ≡ (not (contains 4 busy.to_remove) && (contains 4 busy.sources || contains 4 busy.to_add)))
    × IsUnique l'.sources
    × (l'.to_add ≡ [])
    × (l'.to_remove ≡ [])
    × (l'.to_retire ≡ [])
apply_pending_sources_example = apply_pending_sources busy 4 busy-IsUnique

apply_pending_test : (apply_pending busy).sources ≡ 2 ∷ 3 ∷ []
unfolding apply_pending add_each erase_each erase contains
apply_pending_test = refl

abbrev silent : ℕ → ℕ → List Call
silent s r = []

abbrev only : ℕ → ℕ → ℕ → ℕ
only i r k = if k == i then r else 0

-- The bus adds source 7; the source hangs up and retires itself; a signal stops the loop.
abbrev arrival : Turn
arrival = record {
  early_stop = none;
  poll_stop = none;
  event_fd = true;
  poll = ready 1 (only 0 1);
  bus_calls = adds 7 ∷ [];
  bus_throws = false;
  dispatch = silent;
}

abbrev departure : Turn
departure = record arrival {
  poll = ready 1 (only 3 17);
  bus_calls = [];
  dispatch = λ s r. retires s ∷ [];
}

abbrev signal : Turn
signal = record departure { poll_stop = some (pos 3); poll = interrupted; dispatch = silent }

abbrev visit : List Turn
visit = arrival ∷ departure ∷ signal ∷ []

visit-LegalRun : LegalRun visit start
unfolding run_from pass after_poll serve process drain dispatch_from dispatch_one performs perform
    add remove retire stop wake stop_by apply_pending add_each erase_each erase bury contains
visit-LegalRun = ((λ _. (refl, tt), tt), ((λ e. tt, (λ n. ((refl, refl), tt), tt)), (tt, tt)))

run-Uses_example : Uses [] (run visit (new_loop true)).1 × Inv (run visit (new_loop true)).0
run-Uses_example = run-Uses visit (new_loop true) visit-LegalRun (new_loop-Inv true)

-- The calls add a source and remove another while both are dispatched.
abbrev two_devices : Loop
two_devices = record start { sources = 5 ∷ 6 ∷ [] }

abbrev report : Pollfd → ℕ
report (source s) = if s == 5 then 1 else if s == 6 then 16 else 0
report bus = 0
report bus_event = 0
report wake_up = 0

abbrev table : ℕ → ℕ
table k = if k == 2 then 1 else if k == 3 then 16 else 0

table-report :
    (k : ℕ) (p : Pollfd)
    → get_elem? (pollfds false two_devices.sources) k ≡ some p
    → table k ≡ report p
unfolding pollfds
table-report zero p e = ap report (some-injective bus p e)
table-report (suc zero) p e = ap report (some-injective wake_up p e)
table-report (suc (suc zero)) p e = ap report (some-injective (source 5) p e)
table-report (suc (suc (suc zero))) p e = ap report (some-injective (source 6) p e)
table-report (suc (suc (suc (suc k)))) p e = cc

abbrev calls : ℕ → ℕ → List Call
calls s r = adds 9 ∷ removes 5 ∷ []

dispatch_own_events_example :
    (dispatch_from calls table (first_source_idx false) two_devices.sources two_devices).1
    ≡ reported (λ s. report (source s)) two_devices.sources
dispatch_own_events_example = dispatch_own_events calls table report false two_devices table-report

-- A hang-up of source 6, whose callback adds it again.
abbrev stubborn : Turn
stubborn = record arrival {
  event_fd = false;
  poll = ready 1 (only 3 16);
  bus_calls = [];
  dispatch = λ s r. adds s ∷ [];
}

stubborn-hangup : saw_hangup 6 (pass stubborn two_devices).1 ≡ true
unfolding saw_hangup hung_up pass after_poll serve process drain dispatch_from stop_by apply_pending
    add_each erase_each
stubborn-hangup = refl

pass-hangup_dropped_example :
    contains 6 (apply_pending (pass stubborn two_devices).0).sources ≡ false
pass-hangup_dropped_example = pass-hangup_dropped 6 stubborn two_devices stubborn-hangup

abbrev quiet : Turn
quiet = record stubborn { bus_calls = adds 2 ∷ [] }

quiet-IsQuiet : IsQuiet quiet
quiet-IsQuiet = record {
  no_early_stop = refl;
  no_poll_stop = refl;
  no_failure = λ e. cc;
  no_throw = refl;
  calm_bus = (refl, tt);
  calm_sources = λ s r. (refl, tt);
}

run-quiet_example : (run (quiet ∷ quiet ∷ []) two_devices).2 ≡ none
run-quiet_example = run-quiet (quiet ∷ quiet ∷ []) two_devices (quiet-IsQuiet, (quiet-IsQuiet, tt))
