-- ===== src/Bluez/Monitoring.antt =====
-- src/bluez/udev_monitor.hpp: the udev monitor, a source of the loop whose dispatch calls the
-- callback of the controller. What libudev answers is an argument: whether it makes a context and
-- a monitor, and the devices that wait on the socket. Logging is left out, and so is the filter,
-- which the kernel applies.
pub mod Removals
use sdbus_cpp_examples.Prelude.{ℕ, Bool, true, false, Option, none, some, List, [], ◌∷◌}
use sdbus_cpp_examples.Prelude.Text.{Text}
use sdbus_cpp_examples.Prelude.Int.{ℤ}
use sdbus_cpp_examples.UniqueFd.{no_fd}
use sdbus_cpp_examples.Bluez.Hidraw.Devices.{Udev}
use sdbus_cpp_examples.Bluez.Controllers.{Model, Controller}
use sdbus_cpp_examples.Bluez.Controllers.Removing.{on_udev_event}

-- A device that udev_monitor_receive_device gives: its action, node and subsystem, none for null.
pub record Device : Type 0 where
  pub action : Option Text
  pub devnode : Option Text
  pub subsystem : Option Text

pub record UdevMonitor : Type 0 where
  pub udev : Bool
  pub mon : Bool
  pub fd : ℤ

-- The constructor, given whether udev_new() and udev_monitor_new_from_netlink() gave something, and
-- the descriptor of the monitor.
unfoldable pub construct : Bool → Bool → ℤ → UdevMonitor
construct false netlink fd = record { udev = false; mon = false; fd = no_fd }
construct true false fd = record { udev = true; mon = false; fd = no_fd }
construct true true fd = record { udev = true; mon = true; fd = fd }

-- The callback, none for an empty std::function: action, node and subsystem. It may ask libudev,
-- which answers as it stands then.
abbrev pub Callback : Type 0 → Type 0
Callback S = Option (Udev → Text → Option Text → Text → S → S)

-- The call, unless the action or the subsystem is null.
unfoldable pub call_with :
    {S : Type 0}
    → (Text → Option Text → Text → S → S)
    → Option Text
    → Option Text
    → Option Text
    → S
    → S
call_with callback none devnode subsystem s = s
call_with callback (some action) devnode none s = s
call_with callback (some action) devnode (some subsystem) s = callback action devnode subsystem s

-- The body of the loop in dispatch().
unfoldable pub dispatch_device : {S : Type 0} → Callback S → Udev → Device → S → S
dispatch_device none udev dev s = s
dispatch_device (some callback) udev dev s =
    call_with (callback udev) dev.action dev.devnode dev.subsystem s

-- UdevMonitor::dispatch, over the devices that wait on the socket.
unfoldable pub dispatch : {S : Type 0} → Callback S → List (Udev × Device) → S → S
dispatch callback [] s = s
dispatch callback ((udev, dev) ∷ devs) s =
    dispatch callback devs (dispatch_device callback udev dev s)

-- The callback that the constructor of a controller gives; the node is only logged.
unfoldable pub controller_callback :
    Model → Udev → Text → Option Text → Text → Controller → Controller
controller_callback model udev action dev_node sub_system =
    on_udev_event model udev action sub_system
