-- ===== src/Server.antt =====
-- The parts together, as cmd/godlna/godlna.go composes them.
pub mod Scan
pub mod Examples
