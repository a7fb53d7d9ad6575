-- ===== src/Protocol.antt =====
-- net/protocol: the message of the wire protocol and how packets are told apart in a stream.
pub mod Framing
pub mod Message
pub mod Stream
