-- ===== src/Db.antt =====
-- db/migrations.py and db/schema.sql: the tables, and the operations that write them.
pub mod Tables
pub mod Paths
pub mod Promote
pub mod Snapshots
