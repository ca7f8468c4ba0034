-- ===== src/Interface.antt =====
-- interface.c and interface.h: requests and verdicts on a client's socket.
pub mod Request
pub mod BufferLib
pub mod Decode
pub mod Receive
pub mod Send
pub mod Protocol
mod Tests
