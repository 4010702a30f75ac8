-- ===== src/Block.antt =====
-- include/raw_data_block.hpp and src/raw_data_block.tpp: blocks, the matrices of streams that the
-- client library keeps.
pub mod Interface
pub mod State
pub mod Rows
pub mod Invariant
pub mod Removal
pub mod Insert
pub mod Frame
pub mod Frames
pub mod Matrix
pub mod Reachable
pub mod Limit
pub mod Limits
pub mod Lookup
mod Tests
