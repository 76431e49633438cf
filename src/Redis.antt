-- ===== src/Redis.antt =====
-- internal/redis: the key names and the Lua scripts (internal/redis/scripts), and the client that
-- runs the scripts (internal/redis/client.go).
pub mod Script
pub mod Keys
pub mod Scripts
pub mod Counters
pub mod Apart
pub mod Stock
pub mod Counts
pub mod Leaves
pub mod Moves
pub mod Setting
pub mod Promote
pub mod Client
pub mod ClientCalm
