-- ===== src/Http.antt =====
-- packages/stream-import/src: the requests to the sources and to the Stream API, and their retries.
pub mod Urls
pub mod Slashes
pub mod Request
pub mod Replies
pub mod Budget
pub mod Ending
pub mod Outcome
pub mod RateLimit
pub mod Replays
mod Tests
