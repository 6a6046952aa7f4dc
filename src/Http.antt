-- ===== src/Http.antt =====
-- pkg/protocol/parser.go: `HTTPParser`.
pub mod Match
pub mod Parser
pub mod Wire
pub mod RequestLine
pub mod RoundTrip
