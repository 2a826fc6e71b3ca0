-- ===== src/SqlSplit.antt =====
-- packages/database-shell/src/parser.ts: splitting a SQL script into statements.
pub mod Trigger
pub mod Scan
pub mod Statements
pub mod Pieces
pub mod Comments
pub mod Reading
pub mod RoundTrip
pub mod Scripts
mod Tests
