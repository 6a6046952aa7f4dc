-- ===== src/Command.antt =====
-- cmd/main.go: the application.
pub mod App
pub mod Kept
