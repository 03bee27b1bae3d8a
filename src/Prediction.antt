-- ===== src/Prediction.antt =====
-- backend/app/q2_analysis/predictor.py: the prediction of a fund's return on a day.
pub mod Schema
pub mod Rules
pub mod Weights
pub mod Days
mod Proxies
pub mod Soundness
pub mod Totals
mod Samples
