-- ===== src/EventLoop/Safety.antt =====
-- No use of a source after its destruction, and no second destruction.
use sdbus_cpp_examples.Prelude.{
  ℕ, ◌+◌, ◌≡◌, refl, ◌≢◌, Bool, true, false, Option, none, some, List, [], ◌∷◌, arith, contains,
  contains-nil, contains-cons, contains-append, IsUnique, inl, inr, push-IsUnique, Bool-cases, ◌==◌,
  if◌then◌else◌, ◌∙◌,
}
use sdbus_cpp_examples.Prelude.Int.{ℤ}
use sdbus_cpp_examples.EventLoop.{
  Loop, new_loop, Call, adds, removes, retires, stops, perform, performs, Turn, Poll, interrupted,
  failed, ready, dbus_ready, first_source_idx, dispatch_one, dispatch_from, process, drain, stop_by,
  entered, pass, bury, apply_pending, remove, hung_up,
}
use sdbus_cpp_examples.EventLoop.Pending.{apply_pending_sources, contains-bury}

-- What the callers owe the loop: nobody hands it a pointer to a destroyed object, and an object is
-- given up to it once.
abbrev pub Legal : Call → Loop → Type 0
Legal (adds s) l = contains s l.destroyed ≡ false
Legal (removes s) l = Unit
Legal (retires s) l = (contains s l.destroyed ≡ false) × (contains s l.to_retire ≡ false)
Legal (stops c) l = Unit

abbrev pub Legals : List Call → Loop → Type 0
Legals [] l = Unit
Legals (c ∷ cs) l = Legal c l × Legals cs (perform c l)

abbrev pub LegalDispatch : (ℕ → ℕ → List Call) → (ℕ → ℕ) → ℕ → List ℕ → Loop → Type 0
LegalDispatch calls revents i [] l = Unit
LegalDispatch calls revents i (s ∷ ss) l =
    (revents i ≢ 0 → Legals (calls s (revents i)) l)
    × LegalDispatch calls revents (i + 1) ss (dispatch_one calls s (revents i) l)

abbrev pub LegalPoll : Turn → Poll → Loop → Type 0
LegalPoll t interrupted l = Unit
LegalPoll t failed l = Unit
LegalPoll t (ready n revents) l =
    let l' = drain t.event_fd revents l in
    (dbus_ready t.event_fd n revents ≡ true → Legals t.bus_calls l')
    × LegalDispatch t.dispatch revents (first_source_idx t.event_fd) l'.sources
        (process t n revents l')

abbrev pub LegalRun : List Turn → Loop → Type 0
LegalRun [] l = Unit
LegalRun (t ∷ ts) l =
    LegalPoll t t.poll (stop_by t.poll_stop (entered t l)) × LegalRun ts (pass t l).0

-- What holds of every pointer `a` between two calls.
pub record Tracks (a : ℕ) (l : Loop) : Type 0 where
  pub source_lives : contains a l.sources ≡ true → contains a l.destroyed ≡ false
  pub added_lives : contains a l.to_add ≡ true → contains a l.destroyed ≡ false
  pub retired_removed : contains a l.to_retire ≡ true → contains a l.to_remove ≡ true
  pub retired_lives : contains a l.to_retire ≡ true → contains a l.destroyed ≡ false

pub record Inv (l : Loop) : Type 0 where
  pub tracks : (a : ℕ) → Tracks a l
  pub sources_unique : IsUnique l.sources
  pub retired_unique : IsUnique l.to_retire

perform-Tracks : (a : ℕ) (c : Call) (l : Loop) → Legal c l → Tracks a l → Tracks a (perform c l)
unfolding perform
perform-Tracks a (adds s) l ok h =
    ground (arith, contains-append a l.to_add (s ∷ []), contains-cons a s [], contains-nil a)
perform-Tracks a (removes s) l ok h =
    ground (arith, contains-append a l.to_remove (s ∷ []), contains-cons a s [], contains-nil a)
perform-Tracks a (retires s) l ok h = ground (
  arith,
  contains-append a l.to_remove (s ∷ []),
  contains-append a l.to_retire (s ∷ []),
  contains-cons a s [],
  contains-nil a,
)
perform-Tracks a (stops c) l ok h = ground arith

perform-retired :
    (c : Call) (l : Loop) → Legal c l → IsUnique l.to_retire → IsUnique (perform c l).to_retire
unfolding perform
perform-retired (adds s) l ok u = ground arith
perform-retired (removes s) l ok u = ground arith
perform-retired (retires s) l ok u = ground (arith, push-IsUnique s l.to_retire ok.1 u)
perform-retired (stops c) l ok u = ground arith

perform-sources : (c : Call) (l : Loop) → (perform c l).sources ≡ l.sources
unfolding perform
perform-sources (adds s) l = ground arith
perform-sources (removes s) l = ground arith
perform-sources (retires s) l = ground arith
perform-sources (stops c) l = ground arith

pub perform-destroyed : (c : Call) (l : Loop) → (perform c l).destroyed ≡ l.destroyed
unfolding perform
perform-destroyed (adds s) l = ground arith
perform-destroyed (removes s) l = ground arith
perform-destroyed (retires s) l = ground arith
perform-destroyed (stops c) l = ground arith

pub performs-sources : (cs : List Call) (l : Loop) → (performs cs l).sources ≡ l.sources
unfolding performs
performs-sources [] l = refl
performs-sources (c ∷ cs) l = performs-sources cs (perform c l) ∙ perform-sources c l

pub performs-destroyed : (cs : List Call) (l : Loop) → (performs cs l).destroyed ≡ l.destroyed
unfolding performs
performs-destroyed [] l = refl
performs-destroyed (c ∷ cs) l = performs-destroyed cs (perform c l) ∙ perform-destroyed c l

pub perform-Inv : (c : Call) (l : Loop) → Legal c l → Inv l → Inv (perform c l)
perform-Inv c l ok v = record {
  tracks = λ a. perform-Tracks a c l ok (v.tracks a);
  sources_unique = rw (perform-sources c l) v.sources_unique;
  retired_unique = perform-retired c l ok v.retired_unique;
}

pub performs-Inv : (cs : List Call) (l : Loop) → Legals cs l → Inv l → Inv (performs cs l)
unfolding performs
performs-Inv [] l ok v = v
performs-Inv (c ∷ cs) l ok v = performs-Inv cs (perform c l) ok.1 (perform-Inv c l ok.0 v)

-- A state that differs in the flags alone.
pub flags-Inv :
    (l l' : Loop)
    → Inv l
    → l'.sources ≡ l.sources
    → l'.to_add ≡ l.to_add
    → l'.to_remove ≡ l.to_remove
    → l'.to_retire ≡ l.to_retire
    → l'.destroyed ≡ l.destroyed
    → Inv l'
flags-Inv l l' v s p r t d = record {
  tracks = λ a. ground (arith, v.tracks a);
  sources_unique = rw s v.sources_unique;
  retired_unique = rw t v.retired_unique;
}

pub stop_by-Inv : (o : Option ℤ) (l : Loop) → Inv l → Inv (stop_by o l)
unfolding stop_by
stop_by-Inv none l v = v
stop_by-Inv (some c) l v =
    flags-Inv l _ v (ground arith) (ground arith) (ground arith) (ground arith) (ground arith)

pub apply_pending-destroyed :
    (l : Loop) → (apply_pending l).destroyed ≡ bury l.to_retire l.destroyed
unfolding apply_pending
apply_pending-destroyed l = refl

apply_pending-Tracks : (a : ℕ) (l : Loop) → Inv l → Tracks a (apply_pending l)
apply_pending-Tracks a l v = ground (
  arith,
  v.tracks a,
  apply_pending_sources l a v.sources_unique,
  apply_pending-destroyed l,
  contains-bury a l.to_retire l.destroyed,
  contains-nil a,
)

pub apply_pending-Inv : (l : Loop) → Inv l → Inv (apply_pending l)
apply_pending-Inv l v =
    let p = apply_pending_sources l 0 v.sources_unique in
    record {
      tracks = λ a. apply_pending-Tracks a l v;
      sources_unique = p.1;
      retired_unique = rw p.4 tt;
    }

pub drain-Inv : (e : Bool) (revents : ℕ → ℕ) (l : Loop) → Inv l → Inv (drain e revents l)
unfolding drain
drain-Inv e revents l v =
    flags-Inv l _ v (ground arith) (ground arith) (ground arith) (ground arith) (ground arith)

pub dispatch_one-same :
    (calls : ℕ → ℕ → List Call) (s r : ℕ) (l : Loop)
    → ((dispatch_one calls s r l).sources ≡ l.sources)
      × ((dispatch_one calls s r l).destroyed ≡ l.destroyed)
unfolding dispatch_one
dispatch_one-same calls s r l =
    ground (arith, performs-sources (calls s r) l, performs-destroyed (calls s r) l)

remove-Inv : (s : ℕ) (l : Loop) → Inv l → Inv (remove s l)
unfolding remove perform
remove-Inv s l v = perform-Inv (removes s) l tt v

dispatch_one-Inv :
    (calls : ℕ → ℕ → List Call) (s r : ℕ) (l : Loop)
    → (r ≢ 0 → Legals (calls s r) l)
    → Inv l
    → Inv (dispatch_one calls s r l)
unfolding dispatch_one
dispatch_one-Inv calls s r l ok v = elim (Bool-cases (r == 0)) [
  | inl idle ↦ rw idle v
  | inr busy ↦
      rw busy (hung_or_not (hung_up r) _ (performs-Inv (calls s r) l (ok (ground arith)) v))
]
  where
    hung_or_not : (b : Bool) (l : Loop) → Inv l → Inv (if b then remove s l else l)
    hung_or_not true l v = remove-Inv s l v
    hung_or_not false l v = v

pub dispatch_from-same :
    (calls : ℕ → ℕ → List Call) (revents : ℕ → ℕ) (i : ℕ) (ss : List ℕ) (l : Loop)
    → (dispatch_from calls revents i ss l).0.destroyed ≡ l.destroyed
unfolding dispatch_from
dispatch_from-same calls revents i [] l = refl
dispatch_from-same calls revents i (s ∷ ss) l =
    dispatch_from-same calls revents (i + 1) ss (dispatch_one calls s (revents i) l)
    ∙ (dispatch_one-same calls s (revents i) l).1

pub dispatch_from-Inv :
    (calls : ℕ → ℕ → List Call) (revents : ℕ → ℕ) (i : ℕ) (ss : List ℕ) (l : Loop)
    → LegalDispatch calls revents i ss l
    → Inv l
    → Inv (dispatch_from calls revents i ss l).0
unfolding dispatch_from
dispatch_from-Inv calls revents i [] l ok v = v
dispatch_from-Inv calls revents i (s ∷ ss) l ok v =
    dispatch_from-Inv calls revents (i + 1) ss (dispatch_one calls s (revents i) l) ok.1
      (dispatch_one-Inv calls s (revents i) l ok.0 v)

pub new_loop-Inv : (wake_valid : Bool) → Inv (new_loop wake_valid)
new_loop-Inv wake_valid = record {
  tracks = λ a. ground (arith, contains-nil a);
  sources_unique = tt;
  retired_unique = tt;
}
