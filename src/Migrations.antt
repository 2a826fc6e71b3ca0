-- ===== src/Migrations.antt =====
-- packages/cli/src/commands/db/migrations: the files of a directory against what a database has
-- recorded, the gate on drift, the names of new files, and the run of `apply`.
pub mod History
pub mod Gate
pub mod Checksum
pub mod Apply
pub mod Rows
pub mod Resume
pub mod Finish
mod Tests
