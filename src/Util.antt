-- ===== src/Util.antt =====
-- util: the containers and the text helpers.
pub mod TimeoutMap
pub mod UniqueTimeoutMap
pub mod PropertyTree
pub mod Ids
pub mod Text
pub mod XmlConfig
pub mod Variant
pub mod ThreadQueue
pub mod ThreadPool
