-- ===== src/Programs/Looping.antt =====
-- The main.cc files of the programs that run an EventLoop: src/upower, src/networkmanager,
-- src/wpa_supplicant, src/bluez with its three controllers, src/network1, src/resolve1,
-- src/systemd1, src/login1 and src/udisks2. They differ in the client alone.
pub mod Signalled
pub mod Codes
use sdbus_cpp_examples.Prelude.{ℕ, Bool, true, false, Option, none, some, List, if◌then◌else◌}
use sdbus_cpp_examples.Prelude.Int.{ℤ, pos}
use sdbus_cpp_examples.EventLoop.{Loop, new_loop, add, Call, performs, Turn, run}

-- What a program finds: whether eventfd() succeeds, whether the bus is there, and which calls of the
-- loop the constructor of the client makes and whether it throws. The signal source is a number,
-- and so is the client where it is a source of the loop.
pub record Start : Type 0 where
  pub wakes : Bool
  pub connects : Bool
  pub constructs : List Call
  pub throws : Bool
  pub signals : ℕ
  pub client : Option ℕ

unfoldable pub add_client : Option ℕ → Loop → Loop
unfolding add
add_client none l = l
add_client (some client) l = add client l

-- The loop when it starts to run, `none` where an exception ended the program first.
unfoldable pub prepare : Start → Option Loop
prepare s =
    let l = performs s.constructs (add s.signals (new_loop s.wakes)) in
    if s.connects then (if s.throws then none else some (add_client s.client l)) else none

unfoldable pub run_main : List Turn → Option Loop → Option ℤ
run_main ts none = some (pos 1)
run_main ts (some l) = (run ts l).2

-- main: the exit code, `none` while the loop runs.
unfoldable pub main : Start → List Turn → Option ℤ
main s ts = run_main ts (prepare s)
