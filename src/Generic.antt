-- ===== src/Generic.antt =====
-- The generic values that the streams are read as: include/generic.hpp and src/generic.cpp.
pub mod State
pub mod Laws
mod Tests
