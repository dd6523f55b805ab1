-- ===== src/Sharding.antt =====
-- ecat-data-sharding: identifiers, the shard catalogue with its router, queries to all shards, the
-- outbox, and the planning, dual writes and control of a migration between two catalogues.
pub mod Error
pub mod Snowflake
pub mod Catalog
pub mod Router
pub mod Plan
pub mod Migrate
pub mod Outbox
pub mod Scatter
pub mod DualWrite
pub mod Backfill
pub mod Verify
mod Tests
