-- ===== src/Buffer.antt =====
-- net/buffer: raw memory, the socket buffer MySKBuffer and the typed buffer MyIOBuf over it.
pub mod Memory
pub mod SkBuffer
pub mod IoBuf
