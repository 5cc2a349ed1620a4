-- ===== src/Tests.antt =====
-- The theorems at concrete inputs.
mod Mounts
mod MountTable
mod Db
mod Retention
mod Scanner
mod Reporting
mod Lock
mod Diagnostics
mod DfIndex
mod Trends
mod Frontier
