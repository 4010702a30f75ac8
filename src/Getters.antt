-- ===== src/Getters.antt =====
-- The calls that read the streams of a client's blocks: src/client/client_get.cpp.
pub mod Interface
pub mod State
pub mod Values
pub mod Snapshots
pub mod Marked
pub mod Frames
pub mod Typed
pub mod Single
pub mod Untouched
pub mod Steps
pub mod Sequence
pub mod Exact
pub mod Written
mod Tests
