-- ===== src/CommandRepo.antt =====
-- backend/internal/storage/repository/postgres_command_event.go: the statements that the command
-- lifecycle makes, each a function of the database, and what they keep.
pub mod Lock
pub mod Read
pub mod Dispatch
pub mod Evidence
pub mod Expire
pub mod Next
pub mod Claim
pub mod Aggregate
pub mod Journal
pub mod Create
pub mod Status
pub mod Completion
pub mod Stuck
pub mod Trace
