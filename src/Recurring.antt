-- ===== src/Recurring.antt =====
-- portfolio_recurring.py and the tables that it reads and writes (models.py).
pub mod Calendar
pub mod Schema
pub mod Plans
pub mod Creation
pub mod Settlement
pub mod Rounds
pub mod Completeness
pub mod Pending
pub mod Backing
mod Prices
mod Samples
