-- ===== src/Execute.antt =====
-- The execution path: src/execute.
pub mod Cache
pub mod Coords
pub mod CacheKey
