-- ===== src/Channel.antt =====
-- channel.h and channel.cpp: a file descriptor, the events it listens for and those it is ready for.
pub mod State
pub mod Dispatch
pub mod Enable
pub mod Interest
mod Tests
