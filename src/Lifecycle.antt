-- ===== src/Lifecycle.antt =====
-- How the jobs of the store move. One step of a job, one transaction of the store, and all the
-- transactions of the classification pipeline and of the coordinator, in any order.
pub mod Moves
pub mod Claiming
pub mod Pipeline
pub mod Coordinator
pub mod Reach
pub mod Spent
pub mod Jobs
pub mod Workers
