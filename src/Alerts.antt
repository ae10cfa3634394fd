-- ===== src/Alerts.antt =====
-- librarian/alert_engine.py: alert rules, their cooldowns and their notifications.
pub mod Rules
pub mod Messages
pub mod Engine
mod Cooldown
mod History
mod Skipping
mod Examples
