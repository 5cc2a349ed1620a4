-- ===== src/Retention.antt =====
-- db/retention.py: which snapshots are kept, and their deletion.
pub mod Policy
pub mod Best
pub mod Select
pub mod Prune
