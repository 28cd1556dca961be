-- ===== src/Routing.antt =====
-- src/backend/routing: distance-vector routing over at most four nodes.
pub mod Route
pub mod State
pub mod Table
pub mod Echo
pub mod Tick
pub mod Run
pub mod Rows
pub mod Sound
pub mod Broadcast
pub mod Print
pub mod Silence
pub mod System
mod Tests
