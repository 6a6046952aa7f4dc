-- ===== src/Api.antt =====
-- pkg/api/server.go: the HTTP API.
pub mod Answer
pub mod System
pub mod Reports
pub mod Handlers
pub mod Flames
pub mod Routes
pub mod Agrees
pub mod Status
