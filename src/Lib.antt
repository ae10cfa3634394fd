-- ===== src/Lib.antt =====
-- LogLibrarian's librarian service: models of the parts of librarian/ that keep state and decide, and
-- proofs about them.
--
-- The service takes WebSocket connections from agents (scribes) and from browsers, buffers the agents'
-- metrics on their way to the database, checks the metrics against alert rules, and answers questions
-- with an AI assistant, whose calls are retried, broken by a circuit, limited in rate and recorded in
-- an audit log. The endpoints of librarian/main.py and librarian/routers call all of these parts; the
-- parts do not call each other, but for the decorators of the assistant, which share the exceptions,
-- and the security service, which joins the rate limiter, the sanitizer and the audit log. Metrics may
-- pass through a Redis stream; a retention manager removes what is old, a monitor checks bookmarks, and
-- API keys tell the tenants apart.
--
-- Files:
--   Prelude       Boolean tests, lists measured by native numbers, Python's dict, printed numbers.
--   Resilience    librarian/ai_resilience.py. Errors: AIError and its subclasses, ErrorFormatter.
--                 Retry: with_retry. Circuit: CircuitBreaker, with_circuit_breaker.
--   Security      librarian/ai_security.py. RateLimiter: RateLimiter. AuditLogger: AuditLogger.
--                 Sanitizer: InputSanitizer. Service: SecurityService, which joins them.
--   Connections   librarian/connection_manager.py. Stats, Manager, Traffic: the state and the methods
--                 of OptimizedConnectionManager; Runs: sequences of calls; Overlap: two connects that
--                 interleave at their await.
--   Metrics       librarian/metrics_buffer.py. Stats: BufferStats. Buffer: MetricsBuffer and flush.
--                 Calls: add_metrics, the flush loop, start and stop.
--   Alerts        librarian/alert_engine.py. Rules: evaluation of rules. Messages: the texts. Engine:
--                 cooldowns, sending, and the checks.
--   Queries       librarian/ai_query_optimizer.py. Cache: QueryCache. Parallel: can_parallelize.
--                 Execution: execute_parallel. Limiter: ResultLimiter and TimeoutHandler. Optimizer:
--                 QueryOptimizer. Together: execute_tools_parallel.
--   Notifications librarian/notification_manager.py. Manager: send_notification and the channels that
--                 subscribe.
--   Tenants       librarian/tenants.py. Tables: the two tables. Accounts: tenants. Keys: API keys.
--                 Requests: the checks of a request. Calls: sequences of calls.
--   Retention     librarian/retention_manager.py, on SQLite. Tables: rows and DELETE. Settings: the
--                 manager and its settings. Expired: _cleanup_sqlite and its transactions. Oldest:
--                 cleanup_by_size. Manager: run_cleanup and a turn of the loop.
--   Bookmarks     librarian/bookmark_monitor.py. Probes: the checks. Watching: _monitor_loop. Engine:
--                 _sync_monitors, start and stop.
--   Queue         librarian/redis_queue.py. Stats: RedisQueueStats. Broker: what is used of Redis, and
--                 the manager's state. Publisher: publish_metrics. Consumer: _consumer_worker.
-- A module's Examples file applies the theorems at concrete inputs and runs the code.
--
-- Conventions: a method is a function that takes the object's state and returns the new one; what a
-- method returns or raises is an Option, a sum or a type of the model. A clock reading, a random draw
-- and an answer of the database or of a socket are arguments. Times are natural numbers: milliseconds
-- in the Redis queue and in the latencies of checks, parts of a millisecond, 2 ** 53 to one, in the
-- sleeps of a retry, microseconds in the rate limiter, the security service and the latencies of
-- flushes, seconds elsewhere.
-- The floats of the alert rules, the MD5 and SHA-256 digests, random texts, JSON, the database,
-- Apprise, Redis, the network and the functions that decorators wrap are parameters. A SQLite table
-- that a part reads and writes itself is the list of its rows, and the order that ORDER BY gives and
-- the size of the file are parameters. Code between two awaits is one step; a method that awaits only
-- inside its own lock, or only to send, is one step too, except in Connections/Overlap. A Python dict
-- is an association list in insertion order.
--
-- Fuel: evict of Queries/Cache has the length of the cache, chunks of Queries/Parallel the number of
-- calls, and retry_loop the attempts left; each turn uses one, and no proof needs more. The turns of
-- cleanup_by_size in Retention/Oldest are the hundred of the source. str_nat has the number itself,
-- which is more than its digits.
--
-- Not modelled: the databases and their SQL beyond the statements of tenants.py and of
-- retention_manager.py on SQLite, the prompts and tools of the assistant, the endpoints, the search of
-- the regular expressions of the sanitizer and the content filter, the archivist, the dashboard and
-- the Go agent, and the dictionaries of statistics and reports that only print.
pub mod Prelude
pub mod Resilience
pub mod Security
pub mod Connections
pub mod Metrics
pub mod Alerts
pub mod Queries
pub mod Notifications
pub mod Tenants
pub mod Retention
pub mod Bookmarks
pub mod Queue
