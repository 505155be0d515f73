-- ===== src/Contracts.antt =====
-- The contracts shared by the services: packages/python/contracts/thirdnews_contracts.
pub mod Signing
