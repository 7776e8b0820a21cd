-- ===== src/Sidecar.antt =====
-- The bus sidecar of the two PTY adapters (adapters/claude-pty/sidecar.js and
-- adapters/codex-pty/sidecar.js, which run the same code): what it makes of an envelope, which ids
-- it has seen, and the requests on its delivery socket.
pub mod Tty
pub mod Render
pub mod Seen
pub mod Requests
pub mod Start
mod Tests
