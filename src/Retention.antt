-- ===== src/Retention.antt =====
-- librarian/retention_manager.py on a SQLite database: the settings, the removal of expired rows and
-- the removal of the oldest rows while the file is too large.
pub mod Tables
pub mod Settings
pub mod Expired
pub mod Oldest
pub mod Manager
mod Loading
mod Pending
mod Keeping
mod Shrinking
mod Rollback
mod Examples
