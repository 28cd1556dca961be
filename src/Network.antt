-- ===== src/Network.antt =====
-- src/backend/network: the byte stream between the program and the audio framework, and the messages
-- of src/utils/Message.h and MessageType.h that it carries.
pub mod Messages
pub mod DataReceiver
pub mod Client
pub mod Opening
pub mod Stream
pub mod Framing
mod Tests
