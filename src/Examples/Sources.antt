-- ===== src/Examples/Sources.antt =====
-- A controller whose hidraw device goes, and a source of signals that gets no descriptor.
use sdbus_cpp_examples.Prelude.{
  ◌≡◌, true, false, not, ◌&&◌, ◌||◌, Option, none, some, List, [], ◌∷◌, contains, if◌then◌else◌,
}
use sdbus_cpp_examples.Prelude.Text.{Text, text}
use sdbus_cpp_examples.Prelude.Int.{negsuc}
use sdbus_cpp_examples.EventLoop.{new_loop}
use sdbus_cpp_examples.UniqueFd.{valid}
use sdbus_cpp_examples.Bluez.Hidraw.Devices.{Udev}
use sdbus_cpp_examples.Bluez.Controllers.{Controller, new_controller, dual_sense}
use sdbus_cpp_examples.Bluez.Monitoring.{Device, dispatch, controller_callback}
use sdbus_cpp_examples.Bluez.Monitoring.Removals.{Outcome, dispatch-Outcome}
use sdbus_cpp_examples.Signals.{construct, construct-blocked}

abbrev no_udev : Udev
no_udev = record {
  context = false;
  enumerate = false;
  add_match = λ s. false;
  scan = λ s. false;
  entries = λ s. [];
  device = λ s. none;
}

abbrev playing : Controller
playing = record (new_controller (new_loop true) 8) { input_reader = some 7 }

abbrev device : Option Text → Device
device action = record {
  action = action;
  devnode = some (text "/dev/hidraw0");
  subsystem = some (text "hidraw");
}

abbrev queue : List (Udev × Device)
queue =
    (no_udev, device none)
    ∷ (no_udev, device (some (text "remove")))
    ∷ (no_udev, device (some (text "add")))
    ∷ []

dispatch-Outcome_example :
    Outcome true playing (dispatch (some (controller_callback dual_sense)) queue playing)
dispatch-Outcome_example = dispatch-Outcome dual_sense queue playing

construct-blocked_example :
    let s = construct (2 ∷ 15 ∷ []) (15 ∷ 17 ∷ []) true true (negsuc 0) 24 in
    contains 15 s.blocked ≡ (
      if valid s.fd || not true
      then true && contains 15 (2 ∷ 15 ∷ []) || contains 15 (15 ∷ 17 ∷ [])
      else not (contains 15 (2 ∷ 15 ∷ [])) && contains 15 (15 ∷ 17 ∷ []))
construct-blocked_example =
    construct-blocked (2 ∷ 15 ∷ []) (15 ∷ 17 ∷ []) true true (negsuc 0) 24 15
