-- ===== src/TinyXboard.antt =====
-- tiny-xboard: a small panel server that keeps nodes, users and traffic in JSON files and serves
-- them to the agents (tiny-xboard/).
pub mod Schema
pub mod NodeType
pub mod Validate
pub mod Persist
pub mod Reality
pub mod Store
pub mod Auth
pub mod Api
pub mod Main
pub mod Fixtures
mod Tests
