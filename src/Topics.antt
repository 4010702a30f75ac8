-- ===== src/Topics.antt =====
-- include/tos_databridge.h and src/topics.cpp: the topics, their texts and their types.
pub mod Enum
pub mod Text
pub mod Values
pub mod Types
pub mod Map
mod Tests
