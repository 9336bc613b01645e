-- ===== src/Tests.antt =====
-- Runs of the models at concrete inputs: of src/xmla/session.rs, src/execute and src/mdx.
mod Sessions
mod Caching
mod Grid
mod Front
mod Members
mod Ops
mod Security
pub mod Plans
mod Tokens
mod Rollups
mod Results
mod Sidecars
mod Discovery
