-- ===== src/Common/Rows.antt =====
-- Laws of selections and updates of rows.
mod Predicates
mod Selections
mod Counts
pub use Predicates.*
pub use Selections.*
pub use Counts.*
