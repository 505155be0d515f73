-- ===== src/Model.antt =====
-- The rows of the relational store that the services share, as records.
-- Code: services/main/lib/infra/storage/postgres/models, services/main/lib/domain/entities and
-- services/main/lib/interactor/errors.
pub mod Status
pub mod Result
pub mod Job
pub mod News
pub mod Taxonomy
pub mod Labels
pub mod Sources
pub mod Outbox
pub mod Store
