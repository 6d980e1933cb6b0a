-- ===== src/Claimer.antt =====
-- The init container of a batch pod (cmd/claimer/main.go).
pub mod Backoff
pub mod Config
pub mod Claim
pub mod Run
