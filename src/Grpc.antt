-- ===== src/Grpc.antt =====
-- pkg/protocol/parser.go: `GRPCParser`.
pub mod Parser
pub mod Names
pub mod Path
