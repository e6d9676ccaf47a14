-- ===== src/Connection.antt =====
-- connection.h and connection.cpp: one client's connection, its message reader and its sender.
pub mod State
pub mod Close
pub mod Once
pub mod Lifetime
pub mod Sender
pub mod Reader
pub mod Events
pub mod Sample
mod Tests
