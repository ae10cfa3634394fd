-- ===== src/Connections.antt =====
-- librarian/connection_manager.py: WebSocket connections of agents and of dashboard clients.
pub mod Stats
pub mod Manager
pub mod Traffic
mod Measure
mod Counts
mod Keeping
mod Deliveries
mod Runs
mod Limits
mod Overlap
mod Watching
mod Examples
