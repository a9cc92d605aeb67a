-- ===== src/EventLoop/Trace.antt =====
-- The effects of a run, in order: no source is used after its destruction, or destroyed twice.
pub mod Effects
use mathlib.Core.List.{append_assoc, append-nil}
use sdbus_cpp_examples.Prelude.{
  ℕ, ◌+◌, ◌≡◌, refl, true, false, ◌&&◌, Option, List, [], ◌∷◌, ◌++◌, map, arith, contains,
  contains-cons, IsUnique, inl, inr, Bool-cases, ◌∙◌, ◌==◌, if_rule, All,
}
use sdbus_cpp_examples.Prelude.Int.{ℤ}
use sdbus_cpp_examples.EventLoop.{
  Loop, Effect, polled, dispatched, deleted, Call, Flow, continues, breaks, Turn, Poll, interrupted,
  failed, ready, dbus_ready, first_source_idx, dispatch_one, dispatch_from, process, drain, serve,
  after_poll, stop_by, entered, pass, run_from, follow, run, bury,
}
use sdbus_cpp_examples.EventLoop.Safety.{
  Legals, LegalDispatch, LegalPoll, LegalRun, Inv, performs-sources, performs-destroyed,
  performs-Inv, flags-Inv, stop_by-Inv, apply_pending-Inv, apply_pending-destroyed, drain-Inv,
  dispatch_from-same, dispatch_from-Inv,
}
use sdbus_cpp_examples.EventLoop.Trace.Effects.{
  Uses, Apart, all-Apart, Apart-cons, deleted-Uses, polled-Uses, dispatch_from-Uses,
}

process-Inv :
    (t : Turn) (n : ℕ) (revents : ℕ → ℕ) (l : Loop)
    → (dbus_ready t.event_fd n revents ≡ true → Legals t.bus_calls l)
    → Inv l
    → Inv (process t n revents l)
unfolding process
process-Inv t n revents l ok v = elim (Bool-cases (dbus_ready t.event_fd n revents)) [
  | inl due ↦ rw due (performs-Inv t.bus_calls l (ok due) v)
  | inr idle ↦ rw idle v
]

process-same :
    (t : Turn) (n : ℕ) (revents : ℕ → ℕ) (l : Loop)
    → ((process t n revents l).sources ≡ l.sources)
      × ((process t n revents l).destroyed ≡ l.destroyed)
unfolding process
process-same t n revents l =
    ground (arith, performs-sources t.bus_calls l, performs-destroyed t.bus_calls l)

-- What a part of a pass owes: the invariant again, nothing destroyed, and no use of the dead.
abbrev Keeps : Loop → Loop → List Effect → Type 0
Keeps l l' es =
    Inv l'
    × (l'.destroyed ≡ l.destroyed)
    × ((rest : List Effect) → Uses l.destroyed rest → Uses l.destroyed (es ++ rest))

coded-Keeps :
    (l l' : Loop)
    → Inv l
    → l'.destroyed ≡ l.destroyed
    → l'.sources ≡ l.sources
    → l'.to_add ≡ l.to_add
    → l'.to_remove ≡ l.to_remove
    → l'.to_retire ≡ l.to_retire
    → Keeps l l' []
coded-Keeps l l' v d s p r t = (flags-Inv l l' v s p r t d, d, λ rest u. u)

same-destroyed-Keeps :
    (l m l' : Loop) (es : List Effect) → m.destroyed ≡ l.destroyed → Keeps m l' es → Keeps l l' es
same-destroyed-Keeps l m l' es d k = (k.0, k.1 ∙ d, λ rest u. rw d at (k.2 rest (rw d u)))

sources-Apart : (l : Loop) → Inv l → Apart l.sources l.destroyed
sources-Apart l v =
    all-Apart l.sources l.sources l.destroyed (λ a e. (v.tracks a).source_lives e) (λ a e. e)

dispatch_from-Keeps :
    (calls : ℕ → ℕ → List Call) (revents : ℕ → ℕ) (i : ℕ) (ss : List ℕ) (l : Loop)
    → LegalDispatch calls revents i ss l
    → Apart ss l.destroyed
    → Inv l
    → let (l', es) = dispatch_from calls revents i ss l in Keeps l l' es
dispatch_from-Keeps calls revents i ss l ok h v = (
  dispatch_from-Inv calls revents i ss l ok v,
  dispatch_from-same calls revents i ss l,
  λ rest u. dispatch_from-Uses calls revents i ss l.destroyed l rest h u,
)

serve-Keeps :
    (t : Turn) (n : ℕ) (revents : ℕ → ℕ) (l : Loop)
    → (dbus_ready t.event_fd n revents ≡ true → Legals t.bus_calls l)
    → LegalDispatch t.dispatch revents
        (first_source_idx t.event_fd)
        l.sources
        (process t n revents l)
    → Inv l
    → let (l', es, flow) = serve t n revents l in Keeps l l' es
unfolding serve
serve-Keeps t n revents l bus_ok ok v =
    let called = process t n revents l in
    let same = process-same t n revents l in
    let v' = process-Inv t n revents l bus_ok v in
    let dispatching =
      dispatch_from-Keeps t.dispatch revents (first_source_idx t.event_fd) l.sources called ok
        (rw same.1 (sources-Apart l v)) v' in
    elim (Bool-cases (dbus_ready t.event_fd n revents && t.bus_throws)) [
      | inl thrown ↦ rw thrown (
          same-destroyed-Keeps l called _ [] same.1
            (coded-Keeps called _ v' refl refl refl refl refl))
      | inr fine ↦ rw fine (same-destroyed-Keeps l called _ _ same.1 dispatching)
    ]

after_poll-Keeps :
    (t : Turn) (p : Poll) (l : Loop)
    → LegalPoll t p l
    → Inv l
    → let (l', es, flow) = after_poll t p l in Keeps l l' es
unfolding after_poll
after_poll-Keeps t interrupted l ok v = coded-Keeps l l v refl refl refl refl refl
after_poll-Keeps t failed l ok v = coded-Keeps l _ v refl refl refl refl refl
after_poll-Keeps t (ready n revents) l ok v =
    same-destroyed-Keeps l (drain t.event_fd revents l) _ _ drained (
      serve-Keeps t n revents (drain t.event_fd revents l) ok.0 ok.1
        (drain-Inv t.event_fd revents l v))
  where
    drained : (drain t.event_fd revents l).destroyed ≡ l.destroyed
    drained = ground arith

entered-same : (t : Turn) (l : Loop) → (entered t l).destroyed ≡ bury l.to_retire l.destroyed
unfolding stop_by
entered-same t l = ground (arith, apply_pending-destroyed l)

waited-same : (t : Turn) (l : Loop) → (stop_by t.poll_stop l).destroyed ≡ l.destroyed
unfolding stop_by
waited-same t l = ground arith

entered-Inv : (t : Turn) (l : Loop) → Inv l → Inv (entered t l)
entered-Inv t l v = stop_by-Inv t.early_stop _ (apply_pending-Inv l v)

retired-Apart : (l : Loop) → Inv l → Apart l.to_retire l.destroyed
retired-Apart l v =
    all-Apart l.to_retire l.to_retire l.destroyed (λ a e. (v.tracks a).retired_lives e) (λ a e. e)

-- The destructors of a round, and what follows them.
buried-Uses :
    (t : Turn) (l : Loop) (es : List Effect)
    → Inv l
    → Uses (entered t l).destroyed es
    → Uses l.destroyed (map deleted l.to_retire ++ es)
buried-Uses t l es v u =
    deleted-Uses l.to_retire l.destroyed es v.retired_unique (retired-Apart l v)
      (rw (entered-same t l) at u)

-- A pass keeps the invariant and touches live objects only, whatever follows it.
pass-safe :
    (t : Turn) (l : Loop)
    → LegalPoll t t.poll (stop_by t.poll_stop (entered t l))
    → Inv l
    → let (l', es, flow) = pass t l in
      Inv l' × ((rest : List Effect) → Uses l'.destroyed rest → Uses l.destroyed (es ++ rest))
unfolding pass
pass-safe t l ok v =
    let v' = entered-Inv t l v in
    let waiting = stop_by t.poll_stop (entered t l) in
    let polling =
      same-destroyed-Keeps (entered t l) waiting _ _ (waited-same t (entered t l))
        (after_poll-Keeps t t.poll waiting ok (stop_by-Inv t.poll_stop _ v')) in
    if_rule
      (λ (r : Loop × List Effect × Flow).
        Inv r.0 × ((rest : List Effect) → Uses r.0.destroyed rest → Uses l.destroyed (r.1 ++ rest)))
      (entered t l).running _ _
      (λ on. (
        polling.0,
        λ rest u. simp append_assoc (
            buried-Uses t l _ v (
              polled-Uses (entered t l).sources _ _ (sources-Apart _ v')
                (polling.2 rest (rw polling.1 at u)))),
      ))
      (λ off. (v', λ rest u. buried-Uses t l rest v u))

abbrev Clean : Loop → Loop × List Effect × Option ℤ → Type 0
Clean l r = Uses l.destroyed r.1 × Inv r.0

follow-Clean :
    (l : Loop) (flow : Flow) (x y : Loop × List Effect × Option ℤ)
    → Clean l x
    → Clean l y
    → Clean l (follow flow x y)
follow-Clean l continues x y h k = h
follow-Clean l breaks x y h k = k

run_from-Clean : (ts : List Turn) (l : Loop) → LegalRun ts l → Inv l → Clean l (run_from ts l)
unfolding run_from
run_from-Clean [] l ok v = (tt, v)
run_from-Clean (t ∷ ts) l ok v =
    let (v', u) = pass-safe t l ok.0 v in
    let (later, v'') = run_from-Clean ts (pass t l).0 ok.1 v' in
    if_rule (Clean l) l.running _ _
      (λ on. follow-Clean l (pass t l).2 _ _ (u _ later, v'') ((rw append-nil at (u [] tt)), v'))
      (λ off. (tt, v))

-- If the callers keep to their contract from the start, then in every run of the loop, over any
-- answers of the outside, no source is polled or dispatched after its destruction and none is
-- destroyed twice; and the invariant holds of the loop again.
pub run-Uses :
    (ts : List Turn) (l : Loop)
    → LegalRun ts (record l { running = true })
    → Inv l
    → Uses l.destroyed (run ts l).1 × Inv (run ts l).0
unfolding run
run-Uses ts l ok v =
    run_from-Clean ts (record l { running = true }) ok
      (flags-Inv l (record l { running = true }) v refl refl refl refl refl)
