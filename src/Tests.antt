-- ===== src/Tests.antt =====
-- Runs of the services on the reference platform: one sale, one item, two users.
pub mod Scene
pub mod Facts
pub mod Services
pub mod Drift
pub mod Recovery
pub mod Queueing
pub mod Requests
pub mod Broadcast
pub mod Limits
pub mod Web
pub mod Passing
pub mod Sockets
pub mod Lifecycle
