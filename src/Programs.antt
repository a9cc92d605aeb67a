-- ===== src/Programs.antt =====
-- The main.cc files and src/utils/signal_handler.h: how a program starts, runs and ends. Looping
-- has the programs that run an EventLoop, Lifetime the handler and the monitor loop of the ones
-- that do not, Reconnecting the only one of these that connects again, and Presenting those that
-- ask once.
pub mod Presenting
pub mod Lifetime
pub mod Looping
pub mod Reconnecting
