-- ===== src/Metrics.antt =====
-- librarian/metrics_buffer.py: the buffer between the agents' metrics and the database.
pub mod Stats
pub mod Buffer
pub mod Calls
mod Contents
mod Rows
mod Storage
mod Duplicates
mod Examples
