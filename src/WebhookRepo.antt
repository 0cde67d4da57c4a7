-- ===== src/WebhookRepo.antt =====
-- backend/internal/storage/repository/postgres_webhook_simulator.go: the deliveries of webhooks, their
-- claims, their results and their recovery.
pub mod State
pub mod Trace
pub mod Claim
pub mod Complete
pub mod Recover
pub mod Replay
