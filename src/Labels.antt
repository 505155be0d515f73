-- ===== src/Labels.antt =====
-- Labels of a news item: how a classifier's answer is normalized, and how the opinions on an item
-- become its effective labels and scores. Code:
-- services/main/lib/interactor/use_cases/processing/normalization.py, use_cases/scoring.py and
-- services/main/lib/infra/storage/postgres/labels.
pub mod Confidence
pub mod Normalization
pub mod Scoring
pub mod Attempts
pub mod Decisions
pub mod Recorder
pub mod Manual
pub mod Opinions
pub mod Materializer
