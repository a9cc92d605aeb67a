-- ===== src/Printing.antt =====
-- src/utils/utils.cc and src/bluez/hexdump.hpp: what the clients write of what the bus sends.
pub mod Values
pub mod Streams
pub mod Properties
pub mod Json
pub mod Hexdump
