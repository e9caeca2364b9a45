-- ===== src/Manager.antt =====
-- The parsers manager: parser/internal/parsers_manager. Its children hold the parts: State (the manager,
-- the selection of parsers), New (the constructor), Caching (the two caches of a search), Search (the
-- concurrent search and executeSearch), Worker (result handling and a search job under the global
-- breaker), Details (one vacancy, in brief and in full) and DetailsJob (a details job under the breaker);
-- and what runs at once: Pool (workers, queue, callers), Engine (the pool on a manager), Threads
-- (searches and looks, interleaved) and Shutdown.
pub mod State
pub mod Caching
pub mod Hash
pub mod Search
pub mod Worker
pub mod Details
pub mod DetailsJob
pub mod Pool
pub mod New
pub mod Engine
pub mod Threads
pub mod Shutdown
mod Tests
