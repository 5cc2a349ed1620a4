-- ===== src/Reporting.antt =====
-- The reports: which snapshots are compared.
pub mod Pairs
pub mod Since
pub mod Trends
pub mod Rows
pub mod Ancestors
pub mod Frontier
