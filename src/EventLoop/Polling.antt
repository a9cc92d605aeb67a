-- ===== src/EventLoop/Polling.antt =====
-- Which sources a pass dispatches, and with what.
use mathlib.Core.Option
use sdbus_cpp_examples.Prelude.{
  ℕ, zero, suc, ◌+◌, ◌≡◌, refl, Bool, true, false, some, List, [], ◌∷◌, map, arith, get_elem?, ap,
  ◌∙◌, ◌==◌, if◌then◌else◌,
}
use sdbus_cpp_examples.EventLoop.{
  Loop, Effect, dispatched, Call, Pollfd, source, pollfds, first_source_idx, dispatch_from,
  dispatch_one,
}

get_elem?-sources :
    (ss : List ℕ) (i : ℕ) → get_elem? (map source ss) i ≡ Option.map source (get_elem? ss i)
get_elem?-sources [] i = refl
get_elem?-sources (s ∷ ss) zero = refl
get_elem?-sources (s ∷ ss) (suc i) = get_elem?-sources ss i

-- The entry of the poll set at `first_source_idx + i` is that of `sources_[i]`.
pub get_elem?-pollfds :
    (event_fd : Bool) (ss : List ℕ) (i : ℕ)
    → get_elem? (pollfds event_fd ss) (first_source_idx event_fd + i)
      ≡ Option.map source (get_elem? ss i)
unfolding pollfds
get_elem?-pollfds true ss i =
    let e : 3 + i ≡ suc (suc (suc i)) = omega arith in rw e (get_elem?-sources ss i)
get_elem?-pollfds false ss i =
    let e : 2 + i ≡ suc (suc i) = omega arith in rw e (get_elem?-sources ss i)

-- What a pass should dispatch, given what the kernel reports for each source: no index in sight.
abbrev pub reported : (ℕ → ℕ) → List ℕ → List Effect
reported report [] = []
reported report (s ∷ ss) =
    let rest = reported report ss in if report s == 0 then rest else dispatched s (report s) ∷ rest

dispatch_from-reported :
    (calls : ℕ → ℕ → List Call) (revents report : ℕ → ℕ) (i : ℕ) (ss : List ℕ) (l : Loop)
    → ((k s : ℕ) → get_elem? ss k ≡ some s → revents (i + k) ≡ report s)
    → (dispatch_from calls revents i ss l).1 ≡ reported report ss
unfolding dispatch_from
dispatch_from-reported calls revents report i [] l h = refl
dispatch_from-reported calls revents report i (s ∷ ss) l h =
    let here : revents i ≡ report s = rw at_zero at (h 0 s refl) in
    let rest =
      dispatch_from-reported calls revents report (i + 1) ss (dispatch_one calls s (revents i) l)
        (λ k t e. rw (shift k) (h (suc k) t e)) in
    ground (arith, here, rest)
  where
    at_zero : i + 0 ≡ i
    at_zero = omega arith

    shift : (k : ℕ) → i + 1 + k ≡ i + suc k
    shift k = omega arith

-- Let the kernel report `report p` at each entry `p` of the poll set. Then the dispatch loop hands
-- every polled source the events of its own descriptor, in order, and skips those with none,
-- whatever the callbacks add, remove or retire meanwhile.
pub dispatch_own_events :
    (calls : ℕ → ℕ → List Call) (revents : ℕ → ℕ) (report : Pollfd → ℕ) (event_fd : Bool) (l : Loop)
    → ((k : ℕ) (p : Pollfd)
        → get_elem? (pollfds event_fd l.sources) k ≡ some p
        → revents k ≡ report p)
    → (dispatch_from calls revents (first_source_idx event_fd) l.sources l).1
      ≡ reported (λ s. report (source s)) l.sources
dispatch_own_events calls revents report event_fd l h =
    dispatch_from-reported calls revents (λ s. report (source s)) _ l.sources l
      (λ k s e.
        h (first_source_idx event_fd + k) (source s)
          (get_elem?-pollfds event_fd l.sources k ∙ ap (Option.map source) e))
