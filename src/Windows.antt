-- ===== src/Windows.antt =====
-- src/frontend/Chatroom: what the two windows keep, show and send. The layout of the widgets is left
-- out, and a text is the list of its codes.
pub mod Library
pub mod PrivateChat
pub mod ChatRoom
pub mod History
pub mod Delivered
pub mod Members
mod Tests
