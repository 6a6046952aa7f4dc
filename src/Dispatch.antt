-- ===== src/Dispatch.antt =====
-- pkg/protocol/parser.go: `Parser`, which calls the parsers of the protocols.
pub mod Parser
pub mod Panics
