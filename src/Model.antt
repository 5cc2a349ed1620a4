-- ===== src/Model.antt =====
-- models.py: the records that the components exchange. A `str` that the program only compares or
-- passes on is a `String`, a path is `Bytes`. A message that the source formats is a `Message`,
-- one constructor for each format with the values that it prints.
mod Status
pub mod Time
mod Rows
pub use Status.{SnapshotStatus, OsErrorClass, OsError, ErrorKind, Message, CollapseReason}
unfoldable pub use Status.{snapshot_status_from_storage}
pub use Rows.{
  SnapshotRecord, DirectoryAggregate, MountInfo, MountDecision, MountPolicy, CollapsePolicy,
  ScanError, ScanResult,
}
unfoldable pub use Rows.{String-discrete, Message-discrete}
