-- ===== src/Filesystems.antt =====
-- collect/filesystems.py: the usage of each filesystem below a root.
pub mod Usage
pub mod Collected
