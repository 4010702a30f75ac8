-- ===== src/Shared.antt =====
-- src/service/engine.cpp and src/client/client_admin.cpp: the ring buffers in shared memory.
pub mod State
pub mod Ring
pub mod History
pub mod Writes
pub mod Delivery
pub mod Created
mod Tests
