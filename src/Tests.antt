-- ===== src/Tests.antt =====
-- Runs at concrete inputs: the buffers, messages and loops, and the maps.
mod Streams
mod Registries
mod Utilities
mod Maps
mod Datagrams
mod Sockets
mod Requests
mod Stores
mod Records
mod Configs
mod Starts
