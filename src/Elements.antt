-- ===== src/Elements.antt =====
-- The streams that a block makes: of five types of elements, with stamps or without, behind the
-- interface class `DataStreamInterface`.
pub mod Push
pub mod Overloads
pub mod Any
pub mod Copies
pub mod Reads
pub mod Moving
pub mod Kept
pub mod Same
pub mod ReadLaws
pub mod Laws
pub mod Pushes
pub mod Tests
