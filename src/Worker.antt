-- ===== src/Worker.antt =====
-- backend/internal/commandworker and backend/internal/provideradapter: the worker that claims queued
-- commands, hands each to its provider, and stores what came of it.
pub mod Events
pub mod Transitions
pub mod Handlers
pub mod Agreement
pub mod Gate
pub mod Maintenance
