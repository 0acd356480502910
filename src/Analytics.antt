-- ===== src/Analytics.antt =====
-- The questions over the exported objects: src/domain/analytics and src/application/analytics.
pub mod Shape
pub mod Reading
pub mod Runner
pub mod Athena
