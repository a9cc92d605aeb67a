-- ===== src/Signals.antt =====
-- src/utils/sys.h and src/utils/signal_source.h: the calls that make a descriptor, and the source
-- that turns signals into EventLoop::stop. What a system call returns, and the errno after it, are
-- arguments.
use sdbus_cpp_examples.Prelude.{
  ℕ, ◌≡◌, refl, arith, Bool, true, false, List, ◌++◌, if◌then◌else◌, not, contains, contains-append,
  ◌&&◌, ◌||◌,
}
use sdbus_cpp_examples.Prelude.Int.{ℤ, pos, negsuc}
use sdbus_cpp_examples.EventLoop.{Loop, stop, erase_each}
use sdbus_cpp_examples.EventLoop.Pending.{contains-erase_each}
use sdbus_cpp_examples.UniqueFd.{UniqueFd, adopt, empty, valid, move_assign, release}

-- std::expected with a std::error_code, an errno.
pub data Expected (A : Type 0) : Type 0 where
  value : A → Expected A
  unexpected : ℕ → Expected A

-- open_fd, make_eventfd, make_signalfd and make_timerfd, of what the system call returned.
unfoldable pub owned : ℤ → ℕ → Expected UniqueFd
owned rc errno = if valid (adopt rc) then value (adopt rc) else unexpected errno

-- sys::ioctl, of what ioctl() returned.
unfoldable pub ioctl : ℤ → ℕ → Expected ℤ
ioctl (pos n) errno = value (pos n)
ioctl (negsuc n) errno = unexpected errno

-- A SignalSource, with the signals that the process has blocked.
pub record SignalSource : Type 0 where
  pub mask : List ℕ
  pub fd : UniqueFd
  pub blocked : List ℕ

-- The end of the constructor: the descriptor that was made, or the signals unblocked, if the second
-- sigprocmask() succeeds, whose result is not looked at.
unfoldable pub with_fd : Bool → Expected UniqueFd → SignalSource → SignalSource
with_fd unblocks (value fd) s = record s { fd = (move_assign s.fd fd).0 }
with_fd unblocks (unexpected errno) s = record s {
  blocked = if unblocks then erase_each s.mask s.blocked else s.blocked;
}

-- The constructor, given the signals that the process has blocked, whether each sigprocmask()
-- succeeds, and what signalfd() returns.
unfoldable pub construct : List ℕ → List ℕ → Bool → Bool → ℤ → ℕ → SignalSource
construct signals blocked blocks unblocks rc errno = with_fd unblocks (owned rc errno) (record {
  mask = signals;
  fd = empty;
  blocked = if blocks then signals ++ blocked else blocked;
})

-- SignalSource::dispatch: what it reads is only logged, and then it stops the loop.
unfoldable pub dispatch : Loop → Loop
dispatch l = stop (pos 0) l

-- What is blocked after sigprocmask(SIG_BLOCK), and after SIG_UNBLOCK of the same signals.
contains-blocked :
    (signals blocked : List ℕ) (blocks : Bool) (a : ℕ)
    → contains a (if blocks then signals ++ blocked else blocked)
      ≡ (blocks && contains a signals || contains a blocked)
contains-blocked signals blocked true a = contains-append a signals blocked
contains-blocked signals blocked false a = refl

contains-unblocked :
    (signals blocked : List ℕ) (blocks : Bool) (a : ℕ)
    → contains a (erase_each signals (if blocks then signals ++ blocked else blocked))
      ≡ (not (contains a signals) && contains a blocked)
contains-unblocked signals blocked blocks a = ground (
  arith,
  contains-blocked signals blocked blocks a,
  contains-erase_each a signals (if blocks then signals ++ blocked else blocked),
)

-- After the constructor, if there is a descriptor that receives the signals, those blocked are the
-- source's, if the first sigprocmask() succeeded, and those blocked before. If there is none, they
-- are those blocked before without the source's, if the second sigprocmask() succeeds; if it fails,
-- what the first has blocked stays blocked.
pub construct-blocked :
    (signals blocked : List ℕ) (blocks unblocks : Bool) (rc : ℤ) (errno a : ℕ)
    → let s = construct signals blocked blocks unblocks rc errno in
      contains a s.blocked ≡ (
        if valid s.fd || not unblocks
        then blocks && contains a signals || contains a blocked
        else not (contains a signals) && contains a blocked)
unfolding construct with_fd owned move_assign release
construct-blocked signals blocked blocks unblocks (pos n) errno a =
    contains-blocked signals blocked blocks a
construct-blocked signals blocked blocks true (negsuc n) errno a =
    contains-unblocked signals blocked blocks a
construct-blocked signals blocked blocks false (negsuc n) errno a =
    contains-blocked signals blocked blocks a
