-- ===== src/Common.antt =====
-- Package `common`: connections, their state machine, and what the two pools and proxies share.
pub mod Types
pub mod Store
pub mod Pool
pub mod Write
pub mod Read
pub mod Receive
pub mod Proxy
pub mod Utils
pub mod Auth
pub mod Serve
pub mod Reader
pub mod Pings
pub mod Secrets
