-- ===== src/Rest.antt =====
-- packages/database-rest/src: the REST handler over a database, its query parser, its SQL builders
-- and the shared-token check.
pub mod Platform
pub mod Query
pub mod Sql
pub mod Identifier
pub mod Casts
pub mod Inherited
pub mod Neutral
pub mod Placeholders
pub mod Clauses
pub mod Balanced
pub mod Handler
pub mod Routes
pub mod Guards
pub mod Keys
pub mod Writes
pub mod Auth
mod Tests
