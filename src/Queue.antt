-- ===== src/Queue.antt =====
-- operation_queue.py, the table `data_operation` of models.py, and the worker loop.
pub mod Rows
pub mod Stages
pub mod Invariant
pub mod Runs
pub mod Outcomes
pub mod Steps
pub mod Requests
mod Samples
