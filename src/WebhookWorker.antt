-- ===== src/WebhookWorker.antt =====
-- backend/internal/webhookworker: the worker that sends the deliveries of webhooks.
pub mod Config
pub mod Target
pub mod Deliver
pub mod Loop
