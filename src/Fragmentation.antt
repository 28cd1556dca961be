-- ===== src/Fragmentation.antt =====
-- src/backend/fragmentation: a message is cut into fragments of at most 28 bytes, and put together
-- again from the fragments that arrive.
pub mod Fragmenter
pub mod Reassembler
pub mod Chunks
pub mod Completion
pub mod Late
pub mod Pieces
pub mod AnyOrder
pub mod Rounds
mod Tests
