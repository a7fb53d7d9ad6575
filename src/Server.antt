-- ===== src/Server.antt =====
-- net/server: channels and the servant's handling of what they receive.
pub mod Channel
pub mod Dispatcher
pub mod EventLoops
pub mod Filter
pub mod Packets
pub mod Servants
pub mod Registration
pub mod Receive
pub mod Tcp
pub mod Udp
