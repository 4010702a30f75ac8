-- ===== src/Stream.antt =====
-- include/data_stream.hpp and src/data_stream.tpp: the bounded streams that a block holds.
pub mod State
pub mod Read
pub mod Marker
pub mod Secondary
pub mod Invariant
pub mod Index
pub mod Window
pub mod Unread
pub mod Delivery
pub mod Reads
pub mod Reachable
pub mod Paired
pub mod Stamped
mod Tests
