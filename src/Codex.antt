-- ===== src/Codex.antt =====
-- adapters/codex-pty/wrapper.js: the launcher of Codex, which starts the sidecar when a thread of
-- the session has appeared.
pub mod Thread
pub mod Tools
pub mod Bus
mod Tests
