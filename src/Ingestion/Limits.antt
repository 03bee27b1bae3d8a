-- ===== src/Ingestion/Limits.antt =====
-- ingestion/limit_pipeline.py: the daily snapshots of purchase limits and their audit.
pub mod Schema
pub mod Store
pub mod Identities
pub mod Groups
pub mod Columns
pub mod Shares
mod Artifacts
pub mod Validated
pub mod Snapshots
pub mod Audit
pub mod Sync
pub mod Rounds
pub mod Trace
pub mod Fetches
pub mod Codes
pub mod Invariant
pub mod Synced
mod Samples
