-- ===== src/Bookmarks.antt =====
-- librarian/bookmark_monitor.py: the checks of bookmarks, the loop that watches one of them, and the
-- engine that keeps a loop for each active bookmark.
pub mod Probes
pub mod Watching
pub mod Engine
mod Alternation
mod Sync
mod Examples
