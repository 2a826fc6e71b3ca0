-- ===== src/Cli.antt =====
-- packages/cli/src/core: suggestions for a mistyped word, and work with limited concurrency.
pub mod Distance
pub mod Edits
pub mod Rows
pub mod Suggest
pub mod Pool
pub mod Order
pub mod Steps
pub mod Whole
pub mod Measure
mod Tests
