-- ===== src/Bluez.antt =====
-- src/bluez: the controllers' drivers on top of BlueZ, udev and hidraw.
pub mod Gatt
pub mod Adapter1
pub mod Advertising
pub mod Packed
pub mod Patterns
pub mod Device1
pub mod Hidraw
pub mod Controllers
pub mod Client
pub mod DualSense
pub mod Opening
pub mod Xbox
pub mod Horipad
pub mod Monitoring
