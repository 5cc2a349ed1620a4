-- ===== src/Mounts.antt =====
-- collect/mounts.py and collect/classify.py: which mount a path is on, and whether it is scanned.
pub mod Unescape
pub mod Find
pub mod Parse
pub mod Classify
