-- ===== src/EventLoop.antt =====
-- src/utils/event_loop.h and event_loop.cc: one thread that polls the bus and a set of sources.
-- A source is known by its pointer, a number. What the outside answers (poll, the bus, what a
-- callback calls) is an argument of each pass, a `Turn`; what the loop does to its sources is the
-- list of effects that it returns. `signalled` says that a token was written to `wake_fd_` and not
-- yet drained. `destroyed` is a ghost: the objects whose destructor has run.
pub mod Pending
pub mod Polling
pub mod Safety
pub mod Trace
pub mod Running
pub mod Ending
use Prim.Native.Nat.{bit_and}
use sdbus_cpp_examples.Prelude.{
  ℕ, zero, suc, ◌+◌, Bool, true, false, not, ◌&&◌, ◌||◌, ◌==◌, if◌then◌else◌, Option, none, some,
  List, [], ◌∷◌, ◌++◌, map, contains, erase,
}
use sdbus_cpp_examples.Prelude.Int.{ℤ, pos}

pub record Loop : Type 0 where
  pub wake_valid : Bool
  pub signalled : Bool
  pub running : Bool
  pub exit_code : ℤ
  pub sources : List ℕ
  pub to_add : List ℕ
  pub to_remove : List ℕ
  pub to_retire : List ℕ
  pub destroyed : List ℕ

-- The constructor, given whether eventfd() succeeded.
abbrev pub new_loop : Bool → Loop
new_loop wake_valid = record {
  wake_valid = wake_valid;
  signalled = false;
  running = false;
  exit_code = pos 0;
  sources = [];
  to_add = [];
  to_remove = [];
  to_retire = [];
  destroyed = [];
}

-- What the loop does to a source: ask for its descriptor, dispatch it, destroy it.
pub data Effect : Type 0 where
  polled : ℕ → Effect
  dispatched : ℕ → ℕ → Effect
  deleted : ℕ → Effect

-- EventLoop::wake. A full counter (EAGAIN) is signalled already.
unfoldable pub wake : Loop → Loop
wake l = if l.wake_valid then record l { signalled = true } else l

-- EventLoop::add, remove, retire and stop.
unfoldable pub add : ℕ → Loop → Loop
unfolding wake
add source l = wake (record l { to_add = l.to_add ++ source ∷ [] })

unfoldable pub remove : ℕ → Loop → Loop
unfolding wake
remove source l = wake (record l { to_remove = l.to_remove ++ source ∷ [] })

unfoldable pub retire : ℕ → Loop → Loop
unfolding wake
retire source l =
    wake
      (record l { to_remove = l.to_remove ++ source ∷ []; to_retire = l.to_retire ++ source ∷ [] })

unfoldable pub stop : ℤ → Loop → Loop
unfolding wake
stop exit_code l = wake (record l { exit_code = exit_code; running = false })

-- The calls that a callback makes of the loop.
pub data Call : Type 0 where
  adds removes retires : ℕ → Call
  stops : ℤ → Call

unfoldable pub perform : Call → Loop → Loop
unfolding add remove retire stop
perform (adds s) l = add s l
perform (removes s) l = remove s l
perform (retires s) l = retire s l
perform (stops c) l = stop c l

unfoldable pub performs : List Call → Loop → Loop
performs [] l = l
performs (c ∷ cs) l = performs cs (perform c l)

-- EventLoop::apply_pending, a loop each for removals and additions.
unfoldable pub erase_each : List ℕ → List ℕ → List ℕ
erase_each [] sources = sources
erase_each (s ∷ to_remove) sources = erase_each to_remove (erase s sources)

unfoldable pub add_each : List ℕ → List ℕ → List ℕ → List ℕ
add_each to_remove [] sources = sources
add_each to_remove (s ∷ to_add) sources =
    add_each to_remove to_add
      (if contains s to_remove || contains s sources then sources else sources ++ s ∷ [])

-- `to_retire_.clear()` runs the destructors.
unfoldable pub bury : List ℕ → List ℕ → List ℕ
bury [] destroyed = destroyed
bury (s ∷ to_retire) destroyed = bury to_retire (s ∷ destroyed)

unfoldable pub apply_pending : Loop → Loop
apply_pending l = record l {
  sources = add_each l.to_remove l.to_add (erase_each l.to_remove l.sources);
  to_add = [];
  to_remove = [];
  to_retire = [];
  destroyed = bury l.to_retire l.destroyed;
}

-- The poll set, in the order of the `push_back`s.
pub data Pollfd : Type 0 where
  bus bus_event wake_up : Pollfd
  source : ℕ → Pollfd

unfoldable pub pollfds : Bool → List ℕ → List Pollfd
pollfds event_fd sources =
    bus ∷ (if event_fd then bus_event ∷ [] else []) ++ wake_up ∷ map source sources

abbrev pub dbus_idx : ℕ
dbus_idx = 0

-- `kNotPresent` is `none`.
abbrev pub dbus_event_idx : Bool → Option ℕ
dbus_event_idx true = some 1
dbus_event_idx false = none

abbrev pub wake_idx : Bool → ℕ
wake_idx event_fd = if event_fd then 2 else 1

abbrev pub first_source_idx : Bool → ℕ
first_source_idx event_fd = if event_fd then 3 else 2

-- `(revents & (POLLHUP | POLLERR)) != 0`, with Linux's POLLERR = 8 and POLLHUP = 16.
unfoldable pub hung_up : ℕ → Bool
hung_up revents = not (bit_and revents 24 == 0)

pub data Poll : Type 0 where
  interrupted : Poll
  failed : Poll
  ready : ℕ → (ℕ → ℕ) → Poll

-- What the outside does in one pass: a stop() by a signal handler or another thread before the
-- second test of `running_`, and one while poll() blocks; whether the bus has an event descriptor;
-- what poll() answers, with the `revents` by index; the calls of the callbacks that the bus runs,
-- and whether the bus throws then; the calls that a source's dispatch() makes.
pub record Turn : Type 0 where
  pub early_stop : Option ℤ
  pub poll_stop : Option ℤ
  pub event_fd : Bool
  pub poll : Poll
  pub bus_calls : List Call
  pub bus_throws : Bool
  pub dispatch : ℕ → ℕ → List Call

abbrev pub dbus_ready : Bool → ℕ → (ℕ → ℕ) → Bool
dbus_ready event_fd n revents =
    n == 0
    || not (revents dbus_idx == 0)
    || elim (dbus_event_idx event_fd) [ none ↦ false | some i ↦ not (revents i == 0) ]

-- The draining of the wake descriptor; Linux's POLLIN is 1.
unfoldable pub drain : Bool → (ℕ → ℕ) → Loop → Loop
drain event_fd revents l =
    if bit_and (revents (wake_idx event_fd)) 1 == 0 then l else record l { signalled = false }

-- The body of the dispatch loop for one source: dispatch it if it is ready, and drop it if it
-- hung up.
unfoldable pub dispatch_one : (ℕ → ℕ → List Call) → ℕ → ℕ → Loop → Loop
unfolding remove
dispatch_one calls s revents l =
    let after = performs (calls s revents) l in
    if revents == 0 then l else if hung_up revents then remove s after else after

abbrev pub effect_one : ℕ → ℕ → List Effect → List Effect
effect_one s revents rest = if revents == 0 then rest else dispatched s revents ∷ rest

-- `for (i = 0; i < sources_.size(); ++i)`, over the sources from index `i` on.
unfoldable pub dispatch_from :
    (ℕ → ℕ → List Call) → (ℕ → ℕ) → ℕ → List ℕ → Loop → Loop × List Effect
dispatch_from calls revents i [] l = (l, [])
dispatch_from calls revents i (s ∷ ss) l =
    let (l', rest) = dispatch_from calls revents (i + 1) ss (dispatch_one calls s (revents i) l) in
    (l', effect_one s (revents i) rest)

pub data Flow : Type 0 where
  continues breaks : Flow

-- `bus.processPendingEvent()` until it has no more, if the bus is ready.
unfoldable pub process : Turn → ℕ → (ℕ → ℕ) → Loop → Loop
process t n revents l = if dbus_ready t.event_fd n revents then performs t.bus_calls l else l

-- The part of a pass behind poll().
unfoldable pub serve : Turn → ℕ → (ℕ → ℕ) → Loop → Loop × List Effect × Flow
serve t n revents l =
    let called = process t n revents l in
    let (l', es) =
      dispatch_from t.dispatch revents (first_source_idx t.event_fd) l.sources called in
    if dbus_ready t.event_fd n revents && t.bus_throws
    then (record called { exit_code = pos 1 }, [], breaks)
    else (l', es, continues)

unfoldable pub after_poll : Turn → Poll → Loop → Loop × List Effect × Flow
unfolding drain
after_poll t interrupted l = (l, [], continues)
after_poll t failed l = (record l { exit_code = pos 1 }, [], breaks)
after_poll t (ready n revents) l = serve t n revents (drain t.event_fd revents l)

unfoldable pub stop_by : Option ℤ → Loop → Loop
unfolding stop
stop_by none l = l
stop_by (some c) l = stop c l

-- The loop at the second test of `running_`.
abbrev pub entered : Turn → Loop → Loop
entered t l = stop_by t.early_stop (apply_pending l)

-- One pass of the while loop of EventLoop::run, its test of `running_` passed.
unfoldable pub pass : Turn → Loop → Loop × List Effect × Flow
pass t l =
    let (l', es, flow) = after_poll t t.poll (stop_by t.poll_stop (entered t l)) in
    if (entered t l).running
    then (l', map deleted l.to_retire ++ (map polled (entered t l).sources ++ es), flow)
    else (entered t l, map deleted l.to_retire, breaks)

abbrev pub follow {ℓ} : {A : Type ℓ} → Flow → A → A → A
follow continues onward out = onward
follow breaks onward out = out

-- The while loop over the passes that the outside grants: `none` is a loop that still runs.
unfoldable pub run_from : List Turn → Loop → Loop × List Effect × Option ℤ
run_from [] l = (l, [], if l.running then none else some l.exit_code)
run_from (t ∷ ts) l =
    let (l', es, flow) = pass t l in
    let rest = run_from ts l' in
    if l.running
    then follow flow (rest.0, es ++ rest.1, rest.2) (l', es, some l'.exit_code)
    else (l, [], some l.exit_code)

-- EventLoop::run.
unfoldable pub run : List Turn → Loop → Loop × List Effect × Option ℤ
run ts l = run_from ts (record l { running = true })
