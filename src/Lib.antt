-- ===== src/Lib.antt =====
-- The clients and the event loop of sdbus-cpp-examples, a set of C++ programs that talk to system
-- services over D-Bus and, for game controllers, to hidraw devices.
--
-- A program is one thread that runs an EventLoop: it polls the bus and a set of sources (a signal
-- source, a udev monitor, the reader of a controller), processes what the bus has and dispatches the
-- sources that are ready. Callbacks of the bus and of udev create, retire and remove those sources
-- and keep maps of the objects that the service announces.
--
-- What models what:
--   EventLoop.antt       src/utils/event_loop.h and event_loop.cc. `Loop` holds the members of the
--                        class; `wake`, `add`, `remove`, `retire`, `stop`, `apply_pending` and `run`
--                        are its functions, `pass` is one round of the while loop.
--   UniqueFd.antt        src/utils/unique_fd.h: the owner of a descriptor and its moves.
--   Dbus.antt            what the clients use of sdbus-c++, a parameter, and
--                        src/utils/property_utils.h on top of it.
--   Bluez/Device1.antt   src/bluez/device1.h: the properties of a device and its Modalias;
--                        Bluez/Patterns.antt has the pieces of the regular expressions.
--   Bluez/Hidraw.antt    src/bluez/hidraw.hpp: keys, paths and identifiers; Hidraw/Devices.antt has
--                        the enumeration by libudev, a parameter, and the association;
--                        Hidraw/Listed.antt and Rounds.antt say what each of the two does.
--   Bluez/Controllers    src/bluez/ps5_dual_sense/dual_sense.cc, xbox_controller/xbox_controller.cc and
--                        horipad_steam/horipad_steam.cc: Adding.antt has onInterfacesAdded and the
--                        constructor, Removing.antt onInterfacesRemoved and the udev callback,
--                        Events.antt the sequences of them, Programs.antt the three programs.
--   Bluez/Client.antt    src/bluez/bluez_client.cc: the maps of all objects of BlueZ.
--   Bluez/DualSense.antt src/bluez/ps5_dual_sense/input_reader.cc and dual_sense_0ce6.h: the
--                        calibration, and in DualSense/Input.antt the reports.
--                        Features.antt has the feature reports and the opening, Names.antt and
--                        Printed.antt the texts.
--   Bluez/Gatt.antt      src/bluez/gatt_service1.h, gatt_characteristic1.h and gatt_descriptor1.h;
--                        Bluez/Adapter1.antt and Bluez/Advertising.antt are src/bluez/adapter1.h and
--                        src/bluez/le_advertising_manager1.h. Their loops over changed properties are
--                        tables of Dbus/Tables.antt.
--   Bluez/Monitoring.antt src/bluez/udev_monitor.hpp; Monitoring/Removals.antt joins it with the
--                        callback of a controller.
--   Signals.antt         src/utils/sys.h and signal_source.h.
--   Logging.antt         src/utils/logging.h: what is taken from the environment; Setup.antt is
--                        initializeLogging. The fuel of the loop
--                        over a path's components is the length of the path, which no round exceeds.
--   Udisks2              src/udisks2/udisks2_monitor_daemon.cc: Watcher.antt (BlockDeviceWatcher),
--                        Monitor.antt (RemovableDeviceMonitor), Size.antt (byteArrayToString and
--                        formatSize), Print.antt (printDeviceInformation); Manager.antt is
--                        src/udisks2/udisks2_manager.cc. What the bus answers is an argument.
--   Bluez/Opening.antt   open_and_init of the Xbox and the Horipad reader.
--   Bluez/Xbox.antt      src/bluez/xbox_controller/input_reader.cc and xbox_controller_02fd.h.
--   Bluez/Horipad.antt   src/bluez/horipad_steam/input_reader.cc and horipad_stream_01ab_0196.h;
--                        Bluez/Packed.antt has the fields that the gamepads' reports share, and
--                        Bluez/Controllers/Texts.antt is what both readers log.
--   Services             src/systemd1/systemd1_manager_client.cc (Systemd1.antt),
--                        src/connman/connman_client.cc, src/login1/login1_manager_client.cc and
--                        src/hostname1/hostname1_client.cc; Objects.antt is the map of objects that
--                        ConnMan and login1 share.
--                        Upower.antt is src/upower, Geoclue.antt src/geoclue2, Network1.antt, Locale1.antt,
--                        Timedate1.antt and Flatpak.antt the clients of those names, and Announcing.antt
--                        what NetworkManager, fwupd and the objects of login1 log.
--   Programs             the main() functions: Looping.antt those that run an EventLoop,
--                        Presenting.antt those that ask once, Reconnecting.antt
--                        src/connman/main.cc, and Lifetime.antt src/utils/signal_handler.h.
--   Printing             src/utils/utils.cc: Values.antt (the D-Bus values of type_map_), Streams.antt
--                        (std::ostringstream with std::hex), Properties.antt (append_property and its
--                        handlers), Json.antt (elementToLines); Hexdump.antt is
--                        src/bluez/hexdump.hpp, in as many rounds as there are bytes at most.
--   ResourceLimits.antt  src/utils/resource_limits.h.
--   Prelude              shared helpers: Boolean tests, lists, sets as lists, maps as association
--                        lists, byte strings, signed integers.
--   Examples             the theorems at concrete inputs, and tests.
--
-- How it is modelled. A pointer to a source is a number; the destructor of a source, the polling of
-- its descriptor and its dispatch are effects that the loop returns in order. The answers of the
-- outside (poll(), the bus, a callback's calls of the loop, a signal) are the argument `Turn` of
-- each pass, and a run is over a list of passes, so a run that has not ended yet is a result of its
-- own (`none`), not a missing one. Other loops are structural, but for the components of a path in
-- Logging.antt, the units of formatSize (four rounds, which its theorem shows to be enough) and the
-- rows of a hex dump (as many rounds as bytes, enough by its theorem); a number of 64 bits is
-- printed in at most twenty digits. A call of `::close` is an effect of a wrapper's operation. An
-- exception is `none`, with the state that it leaves where it leaves one; `none` of an arithmetic
-- function is what C++ leaves undefined. Map iteration is in the order of the association list; a
-- theorem that depends on that order says so. Log output is modelled where it shows what was
-- decoded or received, and left out where it is a fixed text.
--
-- Not modelled: sdbus-c++ and libudev (parameters), the generated proxies, and the clients of the
-- other services (PackageKit, Avahi, RealtimeKit, resolve1, timesync1, wpa_supplicant), which log
-- what the bus sends.
pub mod Prelude
pub mod Bluez
pub mod Dbus
pub mod EventLoop
pub mod Logging
pub mod Printing
pub mod Programs
pub mod ResourceLimits
pub mod Services
pub mod Signals
pub mod Udisks2
pub mod UniqueFd
pub mod Examples
