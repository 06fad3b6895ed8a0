-- ===== src/Replay.antt =====
-- The live comparison of internal/replay/replay.go and the verification of internal/replay/verify.go.
-- net/http and the write-set source are a `Services` record over a state that every call may change.
pub mod Fire
pub mod Run
pub mod Verify
pub mod Verdicts
pub mod Unchanged
