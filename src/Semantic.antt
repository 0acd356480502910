-- ===== src/Semantic.antt =====
-- The questions of the semantic layer: src/domain/semantic/, src/domain/analytics/period.ts and
-- src/application/semantic/.
pub mod Vocabulary
pub mod Period
pub mod Question
pub mod Asking
pub mod Members
pub mod Model
pub mod Client
