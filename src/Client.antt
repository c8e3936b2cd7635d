-- ===== src/Client.antt =====
-- client/: the side of the program that runs in a cluster.
pub mod Config
pub mod Login
pub mod Pool
pub mod Running
pub mod Locks
pub mod Handlers
pub mod Secrets
