-- ===== src/Tests.antt =====
-- Concrete runs of the code, and the theorems at inputs that meet their hypotheses.
mod Data
mod Connections
mod Pools
mod Proxying
mod Greetings
mod Handlers
mod Reading
mod Running
mod Programs
mod Secrets
mod Pinging
mod Rules
mod Serving
mod Clients
mod Locks
mod Links
