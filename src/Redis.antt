-- ===== src/Redis.antt =====
-- pkg/protocol/parser.go: the Redis parser.
pub mod Parser
pub mod Lines
pub mod Progress
pub mod Panics
pub mod Wire
