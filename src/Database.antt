-- ===== src/Database.antt =====
-- packages/database-client/src: the values that are sent to a database and read back.
pub mod Values
pub mod Stored
mod Tests
