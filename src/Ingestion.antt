-- ===== src/Ingestion.antt =====
-- backend/app/ingestion: the audit of ingestion runs.
pub mod Issues
pub mod OpenIssues
pub mod Closing
pub mod Alarms
pub mod Lookthrough
pub mod Depth
pub mod Limits
mod Samples
