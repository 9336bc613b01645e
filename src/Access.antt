-- ===== src/Access.antt =====
-- Who may see what: roles, tables, requests and plans (src/project/config.rs, src/engine/model.rs,
-- src/engine/plan.rs, src/auth/mod.rs, src/main.rs, src/status.rs, src/execute/runtime.rs).
pub mod Config
pub mod Users
pub mod Tables
pub mod Tokens
pub mod Requests
pub mod Gates
pub mod Restrictions
