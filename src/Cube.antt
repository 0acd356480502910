-- ===== src/Cube.antt =====
-- cube/configuration.js: the decisions of the semantic layer's own configuration.
pub mod Host
pub mod Rewrite
pub mod Repair
pub mod Dialect
