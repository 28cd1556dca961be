-- ===== src/Transport.antt =====
-- src/backend/transport: stop-and-wait sending, receiving and relaying of fragments. The callbacks
-- that main.cpp sets are set.
pub mod EndToEnd
pub mod ToAll
pub mod Receiver
pub mod Sender
pub mod Manager
mod Tests
