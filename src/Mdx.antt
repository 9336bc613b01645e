-- ===== src/Mdx.antt =====
-- The MDX front end: src/mdx.
pub mod Outcome
pub mod Ast
pub mod Lexer
pub mod Parser
pub mod Axes
pub mod Walk
pub mod SetOps
pub mod Calls
pub mod Sets
pub mod Members
