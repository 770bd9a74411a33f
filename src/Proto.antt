-- ===== src/Proto.antt =====
-- The messages that the UI exchanges with the server (proto/gen/ts), by service.
pub mod Library
pub mod Management
pub mod LibraryService
pub mod ManagementService
