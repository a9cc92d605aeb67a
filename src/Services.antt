-- ===== src/Services.antt =====
-- The clients of the system services: those that keep what they are told, and in Announcing those
-- that log it.
pub mod Upower
pub mod Geoclue
pub mod Systemd1
pub mod Objects
pub mod Connman
pub mod Login1
pub mod Hostname1
pub mod Network1
pub mod Flatpak
pub mod Locale1
pub mod Timedate1
pub mod Announcing
