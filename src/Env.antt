-- ===== src/Env.antt =====
-- packages/cli/src/core/env.ts: environment variables from dotenv files and KEY=VALUE arguments.
pub mod Dotenv
pub mod Collect
pub mod Override
mod Tests
