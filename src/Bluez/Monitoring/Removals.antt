-- ===== src/Bluez/Monitoring/Removals.antt =====
-- src/bluez/udev_monitor.hpp with the callback of the controllers: the reader over all that waits
-- on the socket.
use mathlib.Core.List.{append-nil}
use sdbus_cpp_examples.Prelude.{
  ℕ, ◌≡◌, refl, sym, ap, ◌∙◌, Bool, true, false, ◌&&◌, ◌||◌, Option, none, some, List, [], ◌∷◌,
  ◌++◌, if◌then◌else◌, if_rule,
}
use sdbus_cpp_examples.Prelude.Text.{Text, text, text_eq}
use sdbus_cpp_examples.EventLoop.{Loop, perform, retire, wake}
use sdbus_cpp_examples.Bluez.Hidraw.Devices.{Udev}
use sdbus_cpp_examples.Bluez.Controllers.{Model, Controller}
use sdbus_cpp_examples.Bluez.Controllers.Removing.{retire_reader, find_hidraws, on_udev_event}
use sdbus_cpp_examples.Bluez.Monitoring.{
  Device, call_with, dispatch_device, dispatch, controller_callback,
}

abbrev is_text : Text → Option Text → Bool
is_text t none = false
is_text t (some s) = text_eq s t

-- The kernel says that a hidraw device is gone.
abbrev pub removes_hidraw : List (Udev × Device) → Bool
removes_hidraw [] = false
removes_hidraw ((_, dev) ∷ devs) =
    (is_text (text "hidraw") dev.subsystem && is_text (text "remove") dev.action)
    || removes_hidraw devs

abbrev pub held : Option ℕ → List ℕ
held none = []
held (some r) = r ∷ []

-- What becomes of the reader of `c` in `c'`, where `gone` says whether a hidraw device went.
pub record Outcome (gone : Bool) (c c' : Controller) : Type 0 where
  pub reader : c'.input_reader ≡ (if gone then none else c.input_reader)
  pub retired :
      c'.loop.to_retire
      ≡ (if gone then c.loop.to_retire ++ held c.input_reader else c.loop.to_retire)

unchanged : (c : Controller) → Outcome false c c
unchanged c = record { reader = refl; retired = refl }

add_held-none : (o : Option ℕ) (l : List ℕ) → o ≡ none → l ++ held o ≡ l
add_held-none o l e = ap (λ o. l ++ held o) e ∙ append-nil l

joined :
    (a b : Bool) (c c1 c2 : Controller) → Outcome a c c1 → Outcome b c1 c2 → Outcome (a || b) c c2
joined true true c c1 c2 h k = record {
  reader = k.reader;
  retired = k.retired ∙ add_held-none c1.input_reader c1.loop.to_retire h.reader ∙ h.retired;
}
joined true false c c1 c2 h k = record {
  reader = k.reader ∙ h.reader;
  retired = k.retired ∙ h.retired;
}
joined false true c c1 c2 h k = record {
  reader = k.reader;
  retired =
      k.retired
      ∙ ap (λ l. l ++ held c1.input_reader) h.retired
      ∙ ap (λ o. c.loop.to_retire ++ held o) h.reader;
}
joined false false c c1 c2 h k = record {
  reader = k.reader ∙ h.reader;
  retired = k.retired ∙ h.retired;
}

-- To wake the loop retires nothing.
wake-to_retire : (l : Loop) → (wake l).to_retire ≡ l.to_retire
unfolding wake
wake-to_retire l =
    if_rule (λ (l' : Loop). l'.to_retire ≡ l.to_retire) l.wake_valid _ _ (λ _. refl) (λ _. refl)

retire_reader-Outcome :
    (o : Option ℕ) (c : Controller) → c.input_reader ≡ o → Outcome true c (retire_reader o c)
unfolding retire_reader perform retire
retire_reader-Outcome none c e = record {
  reader = e;
  retired = sym (add_held-none c.input_reader c.loop.to_retire e);
}
retire_reader-Outcome (some r) c e = record {
  reader = refl;
  retired = wake-to_retire _ ∙ ap (λ o. c.loop.to_retire ++ held o) (sym e);
}

on_udev_event-Outcome :
    (model : Model) (udev : Udev) (action sub_system : Text) (c : Controller)
    → Outcome
        (text_eq sub_system (text "hidraw") && text_eq action (text "remove"))
        c
        (on_udev_event model udev action sub_system c)
unfolding on_udev_event find_hidraws
on_udev_event-Outcome model udev action sub_system c =
    by (text_eq sub_system (text "hidraw")) (text_eq action (text "remove"))
  where
    found : (b : Bool) → Outcome b c (if b then retire_reader c.input_reader c else c)
    found true = retire_reader-Outcome c.input_reader c refl
    found false = unchanged c

    by :
        (a b : Bool)
        → Outcome (a && b) c (
            if a
            then find_hidraws model udev (if b then retire_reader c.input_reader c else c)
            else c)
    by true b = record { reader = (found b).reader; retired = (found b).retired }
    by false b = unchanged c

dispatch_device-Outcome :
    (model : Model) (udev : Udev) (dev : Device) (c : Controller)
    → Outcome
        (is_text (text "hidraw") dev.subsystem && is_text (text "remove") dev.action)
        c
        (dispatch_device (some (controller_callback model)) udev dev c)
unfolding dispatch_device call_with controller_callback
dispatch_device-Outcome model udev dev c = called dev.action dev.subsystem
  where
    passed_over : (b : Bool) → Outcome (b && false) c c
    passed_over true = unchanged c
    passed_over false = unchanged c

    called :
        (action subsystem : Option Text)
        → Outcome
            (is_text (text "hidraw") subsystem && is_text (text "remove") action)
            c
            (call_with (controller_callback model udev) action dev.devnode subsystem c)
    called none none = unchanged c
    called none (some subsystem) = passed_over (text_eq subsystem (text "hidraw"))
    called (some action) none = unchanged c
    called (some action) (some subsystem) = on_udev_event-Outcome model udev action subsystem c

-- After dispatch() has run the callback of a controller for every device that waits on the socket,
-- the controller has no reader if a hidraw device was removed among them, and its reader is then
-- handed to the loop once; else both are as before.
pub dispatch-Outcome :
    (model : Model) (devs : List (Udev × Device)) (c : Controller)
    → Outcome (removes_hidraw devs) c (dispatch (some (controller_callback model)) devs c)
unfolding dispatch
dispatch-Outcome model [] c = unchanged c
dispatch-Outcome model ((udev, dev) ∷ devs) c =
    joined (is_text (text "hidraw") dev.subsystem && is_text (text "remove") dev.action)
      (removes_hidraw devs) c _ _ (dispatch_device-Outcome model udev dev c)
      (dispatch-Outcome model devs _)
