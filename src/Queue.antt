-- ===== src/Queue.antt =====
-- librarian/redis_queue.py: metrics that pass through a Redis stream on their way to the buffer.
pub mod Stats
pub mod Broker
pub mod Publisher
pub mod Consumer
mod Draining
mod Examples
