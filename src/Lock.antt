-- ===== src/Lock.antt =====
-- ops_lock.py: the lock file that keeps two writers apart.
pub mod Processes
pub mod Exclusion
pub mod Waiting
