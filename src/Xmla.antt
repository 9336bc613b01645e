-- ===== src/Xmla.antt =====
-- The XMLA layer: src/xmla.
pub mod Session
pub mod Routing
pub mod Discover
