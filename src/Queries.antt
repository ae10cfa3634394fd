-- ===== src/Queries.antt =====
-- librarian/ai_query_optimizer.py: the cache of query results and the grouping of tool calls.
pub mod Cache
pub mod Parallel
pub mod Limiter
pub mod Execution
pub mod Optimizer
pub mod Together
mod Digests
mod Invalidation
mod Capacity
mod Groups
mod Collisions
mod Results
mod Examples
