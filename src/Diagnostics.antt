-- ===== src/Diagnostics.antt =====
-- diagnostics/: what the live system says about space that the snapshots do not explain.
pub mod Rows
pub mod DfIndex
pub mod Lsof
pub mod DeletedOpen
