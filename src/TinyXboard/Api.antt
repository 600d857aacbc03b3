-- ===== src/TinyXboard/Api.antt =====
-- tiny-xboard/api.go: the three UniProxy handlers and the rendering of a node's configuration.
pub mod Handlers
pub mod Config
pub mod Push
pub mod Compact
