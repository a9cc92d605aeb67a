-- ===== src/Examples.antt =====
-- Each theorem with a hypothesis or a variable at a concrete input.
mod Loops
mod Descriptors
mod Devices
mod Gamepads
mod Sensors
mod Storage
mod Logs
mod Prints
mod Signals
mod Sources
mod Lives
mod Wrappers
