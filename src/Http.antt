-- ===== src/Http.antt =====
-- packages/core/src/http: the parts of the HTTP door.
pub mod Capture
pub mod Request
pub mod Replay
pub mod Options
pub mod Problems
pub mod Run
pub mod Tests
