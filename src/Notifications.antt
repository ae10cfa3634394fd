-- ===== src/Notifications.antt =====
-- librarian/notification_manager.py: notifications to the channels that subscribe to an event.
pub mod Manager
mod Subscriptions
mod Totals
mod Examples
