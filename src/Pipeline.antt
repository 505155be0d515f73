-- ===== src/Pipeline.antt =====
-- The classification pipeline's storage: one transaction is one function on the store. A worker
-- claims a job (`Claiming`), and ends its attempt (`Finalizer`); the fence rejects a worker whose
-- claim was superseded. Code: services/main/lib/infra/storage/postgres/pipeline.
pub mod Fence
pub mod Claiming
pub mod Finalizer
pub mod Taxonomy
pub mod OpinionWriter
pub mod Applier
pub mod Callback
pub mod Worker
pub mod Retention
