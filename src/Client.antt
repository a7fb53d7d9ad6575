-- ===== src/Client.antt =====
-- The client side: net/client.
pub mod Packets
pub mod Selector
pub mod Sessions
pub mod Callbacks
pub mod Clients
pub mod Requests
pub mod Reading
pub mod Communicator
pub mod Connecting
