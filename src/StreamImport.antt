-- ===== src/StreamImport.antt =====
-- packages/stream-import/src: importing the videos of a source into a Bunny library without
-- importing one twice.
pub mod Videos
pub mod Best
pub mod Index
pub mod Entries
pub mod Reconcile
pub mod Prepared
pub mod Outcome
pub mod Recover
pub mod Guids
pub mod Claims
pub mod Tagged
pub mod Kept
pub mod Settled
pub mod Work
pub mod Queue
pub mod Recorded
pub mod Remembered
pub mod Orphans
pub mod Adopted
pub mod Summary
pub mod Counted
pub mod Foretold
mod QueueTests
mod OrphanTests
mod SummaryTests
mod Tests
