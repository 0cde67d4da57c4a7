-- ===== src/CommandService.antt =====
-- backend/internal/commandservice: the requests to create, cancel, read and list commands.
pub mod Validation
pub mod Authorize
pub mod Create
pub mod Cancel
pub mod Read
