-- ===== src/Db/Promote.antt =====
-- `_promote_complete_snapshot` of db/migrations.py, and what it does to the stored history.
mod Defs
mod Effects
mod Vanished
mod Versions
pub mod History
unfoldable pub use Defs.*
