-- ===== src/Udisks2.antt =====
-- src/udisks2: the daemon that reports removable devices (Watcher, Monitor, Size, Print) and the
-- manager of all the objects of UDisks2 (Manager).
pub mod Watcher
pub mod Monitor
pub mod Size
pub mod Print
pub mod Manager
