-- ===== src/Alignment.antt =====
-- backend/app/q2_analysis/alignment.py: market returns on the dates of NAVs.
pub mod Series
pub mod Points
pub mod Returned
pub mod Soundness
pub mod Totality
mod Samples
