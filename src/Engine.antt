-- ===== src/Engine.antt =====
-- src/service/engine.cpp: the engine, which keeps a stream for each topic and item that a client has
-- asked for, and writes what TOS sends into the stream's buffer.
pub mod State
pub mod Streams
pub mod Counts
pub mod Adding
pub mod Removing
pub mod Tracking
pub mod Invariant
pub mod Holding
pub mod Clearing
pub mod Handling
pub mod Balance
pub mod Reachable
mod Tests
