-- ===== src/Server.antt =====
-- Package `server`: the pools of connections and the server's handlers.
pub mod Config
pub mod Pool
pub mod Handlers
pub mod Status
pub mod Running
pub mod Upkeep
pub mod Members
