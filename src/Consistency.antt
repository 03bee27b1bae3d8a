-- ===== src/Consistency.antt =====
-- q2_analysis/consistency.py: diagnostics of the residuals of the static baseline.
pub mod Rules
pub mod Streaks
mod Grounds
pub mod Evaluation
pub mod Judgement
pub mod Compounding
mod Samples
