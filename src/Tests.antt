-- ===== src/Tests.antt =====
-- The theorems at concrete inputs.
mod Data
mod Runs
mod Labels
mod Messages
mod Files
mod Reviews
mod Recomputations
mod Events
mod Intake
mod Regrouped
mod Objects
mod Projections
mod Requests
