-- ===== src/EventLoop/Running.antt =====
-- A source that hung up is dropped; every call wakes the loop up.
use mathlib.Core.List.{append-nil}
use sdbus_cpp_examples.Prelude.{
  ℕ, ◌+◌, ◌≡◌, refl, Bool, true, false, not, ◌&&◌, ◌||◌, List, [], ◌∷◌, ◌++◌, map, arith, contains,
  contains-nil, contains-cons, contains-append, inl, inr, Bool-cases, ◌==◌, if_rule,
}
use sdbus_cpp_examples.EventLoop.{
  Loop, Effect, polled, dispatched, deleted, Call, adds, removes, retires, stops, perform, performs,
  Flow, Turn, Poll, interrupted, failed, ready, dbus_ready, first_source_idx, dispatch_one,
  dispatch_from, process, serve, after_poll, stop_by, entered, pass, apply_pending, hung_up, remove,
  effect_one,
}
use sdbus_cpp_examples.EventLoop.Pending.{contains-apply_pending}

-- A source is dropped once it is in `to_remove_`, whatever else the round adds.
performs-contains :
    (s : ℕ) (cs : List Call) (l : Loop)
    → contains s l.to_remove ≡ true
    → contains s (performs cs l).to_remove ≡ true
unfolding performs perform
performs-contains s [] l h = h
performs-contains s (adds x ∷ cs) l h = performs-contains s cs _ (ground arith)
performs-contains s (removes x ∷ cs) l h =
    performs-contains s cs _ (ground (arith, contains-append s l.to_remove (x ∷ [])))
performs-contains s (retires x ∷ cs) l h =
    performs-contains s cs _ (ground (arith, contains-append s l.to_remove (x ∷ [])))
performs-contains s (stops c ∷ cs) l h = performs-contains s cs _ (ground arith)

remove-contains :
    (s x : ℕ) (l : Loop) → contains s (remove x l).to_remove ≡ (contains s l.to_remove || x == s)
unfolding remove
remove-contains s x l =
    ground (arith, contains-append s l.to_remove (x ∷ []), contains-cons s x [], contains-nil s)

dispatch_one-contains :
    (s : ℕ) (calls : ℕ → ℕ → List Call) (x r : ℕ) (l : Loop)
    → contains s l.to_remove ≡ true
    → contains s (dispatch_one calls x r l).to_remove ≡ true
unfolding dispatch_one
dispatch_one-contains s calls x r l h =
    ground
      (arith, performs-contains s (calls x r) l h, remove-contains s x (performs (calls x r) l))

dispatch_from-contains :
    (s : ℕ) (calls : ℕ → ℕ → List Call) (revents : ℕ → ℕ) (i : ℕ) (ss : List ℕ) (l : Loop)
    → contains s l.to_remove ≡ true
    → contains s (dispatch_from calls revents i ss l).0.to_remove ≡ true
unfolding dispatch_from
dispatch_from-contains s calls revents i [] l h = h
dispatch_from-contains s calls revents i (x ∷ ss) l h =
    dispatch_from-contains s calls revents (i + 1) ss (dispatch_one calls x (revents i) l)
      (dispatch_one-contains s calls x (revents i) l h)

-- The effects tell of `s` dispatched with POLLHUP or POLLERR.
unfoldable pub saw_hangup : ℕ → List Effect → Bool
saw_hangup s [] = false
saw_hangup s (polled x ∷ es) = saw_hangup s es
saw_hangup s (deleted x ∷ es) = saw_hangup s es
saw_hangup s (dispatched x r ∷ es) = x == s && hung_up r || saw_hangup s es

dispatch_one-hangup :
    (s x : ℕ) (calls : ℕ → ℕ → List Call) (r : ℕ) (l : Loop)
    → (not (r == 0) && (x == s && hung_up r)) ≡ true
    → contains s (dispatch_one calls x r l).to_remove ≡ true
unfolding dispatch_one
dispatch_one-hangup s x calls r l h = ground (arith, remove-contains s x (performs (calls x r) l))

saw_hangup-effect_one :
    (s x r : ℕ) (es : List Effect)
    → saw_hangup s (effect_one x r es) ≡ (not (r == 0) && (x == s && hung_up r) || saw_hangup s es)
unfolding saw_hangup
saw_hangup-effect_one s x r es = ground arith

saw_hangup-nil : (s : ℕ) → saw_hangup s [] ≡ false
unfolding saw_hangup
saw_hangup-nil s = refl

dispatch_from-hangup :
    (s : ℕ) (calls : ℕ → ℕ → List Call) (revents : ℕ → ℕ) (i : ℕ) (ss : List ℕ) (l : Loop)
    → saw_hangup s (dispatch_from calls revents i ss l).1 ≡ true
    → contains s (dispatch_from calls revents i ss l).0.to_remove ≡ true
unfolding dispatch_from
dispatch_from-hangup s calls revents i [] l h = cc (saw_hangup-nil s)
dispatch_from-hangup s calls revents i (x ∷ ss) l h =
    let l' = dispatch_one calls x (revents i) l in
    let es = (dispatch_from calls revents (i + 1) ss l').1 in
    elim (Bool-cases (saw_hangup s es)) [
      | inl later ↦ dispatch_from-hangup s calls revents (i + 1) ss l' later
      | inr now ↦ dispatch_from-contains s calls revents (i + 1) ss l' (
          dispatch_one-hangup s x calls (revents i) l
            (ground (arith, saw_hangup-effect_one s x (revents i) es)))
    ]

saw_hangup-polled :
    (s : ℕ) (ss : List ℕ) (es : List Effect) → saw_hangup s (map polled ss ++ es) ≡ saw_hangup s es
unfolding saw_hangup
saw_hangup-polled s [] es = refl
saw_hangup-polled s (x ∷ ss) es = saw_hangup-polled s ss es

saw_hangup-deleted :
    (s : ℕ) (ss : List ℕ) (es : List Effect) → saw_hangup s (map deleted ss ++ es) ≡ saw_hangup s es
unfolding saw_hangup
saw_hangup-deleted s [] es = refl
saw_hangup-deleted s (x ∷ ss) es = saw_hangup-deleted s ss es

serve-hangup :
    (s : ℕ) (t : Turn) (n : ℕ) (revents : ℕ → ℕ) (l : Loop)
    → saw_hangup s (serve t n revents l).1 ≡ true
    → contains s (serve t n revents l).0.to_remove ≡ true
unfolding serve
serve-hangup s t n revents l =
    if_rule
      (λ (r : Loop × List Effect × Flow). saw_hangup s r.1 ≡ true → contains s r.0.to_remove ≡ true)
      (dbus_ready t.event_fd n revents && t.bus_throws) _ _ (λ thrown h. cc (saw_hangup-nil s))
      (λ fine h.
        dispatch_from-hangup s t.dispatch revents (first_source_idx t.event_fd) l.sources
          (process t n revents l) h)

after_poll-hangup :
    (s : ℕ) (t : Turn) (p : Poll) (l : Loop)
    → saw_hangup s (after_poll t p l).1 ≡ true
    → contains s (after_poll t p l).0.to_remove ≡ true
unfolding after_poll
after_poll-hangup s t interrupted l h = cc (saw_hangup-nil s)
after_poll-hangup s t failed l h = cc (saw_hangup-nil s)
after_poll-hangup s t (ready n revents) l h = serve-hangup s t n revents _ h

-- A source that was dispatched with POLLHUP or POLLERR in a pass is out of the poll set of the
-- next one, even if some callback adds it again in the same pass.
pub pass-hangup_dropped :
    (s : ℕ) (t : Turn) (l : Loop)
    → saw_hangup s (pass t l).1 ≡ true
    → contains s (apply_pending (pass t l).0).sources ≡ false
unfolding pass
pass-hangup_dropped s t l =
    if_rule
      (λ (r : Loop × List Effect × Flow).
        saw_hangup s r.1 ≡ true → contains s (apply_pending r.0).sources ≡ false)
      (entered t l).running _ _
      (λ on h. ground (
        arith,
        contains-apply_pending (after_poll t t.poll waiting).0 s,
        after_poll-hangup s t t.poll waiting
            (rw (saw_hangup-deleted s l.to_retire, saw_hangup-polled s (entered t l).sources) at h),
      ))
      (λ off h. cc (
        saw_hangup-nil s,
        saw_hangup-deleted s l.to_retire [],
        append-nil (map deleted l.to_retire),
      ))
  where
    waiting : Loop
    waiting = stop_by t.poll_stop (entered t l)

-- After every call of the loop the wake descriptor, if it is valid, holds a token that makes the
-- next poll() return; if it is not, the call leaves it as it was.
pub perform-signalled :
    (c : Call) (l : Loop) → (perform c l).signalled ≡ (l.wake_valid || l.signalled)
unfolding perform
perform-signalled (adds s) l = ground arith
perform-signalled (removes s) l = ground arith
perform-signalled (retires s) l = ground arith
perform-signalled (stops c) l = ground arith
