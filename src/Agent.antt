-- ===== src/Agent.antt =====
-- The agent (cmd/mini-sb-agent/).
pub mod Hook
pub mod Debug
pub mod Options
pub mod Users
pub mod Update
pub mod Config
mod Tests
