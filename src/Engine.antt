-- ===== src/Engine.antt =====
-- The query engine: src/engine.
pub mod DimCache
pub mod Model
pub mod Plan
pub mod Aggregate
pub mod Sql
pub mod Ranking
pub mod Normalize
pub mod Sidecar
