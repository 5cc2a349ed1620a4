-- ===== src/Model/Status.antt =====
-- `SnapshotStatus` and `snapshot_status_from_storage` of models.py, and the kinds of scan errors.
use watchdirs.Prelude.{ℕ, String, Option, none, some, List}
use watchdirs.Prelude.Bytes.{Bytes}

pub data SnapshotStatus : Type 0 where
  running complete partial failed : SnapshotStatus

-- A stored FAILED row that never finished is reported as RUNNING.
unfoldable pub snapshot_status_from_storage {ℓ} :
    {T : Type ℓ} → SnapshotStatus → Option T → SnapshotStatus
snapshot_status_from_storage SnapshotStatus.failed none = SnapshotStatus.running
snapshot_status_from_storage SnapshotStatus.failed (some t) = SnapshotStatus.failed
snapshot_status_from_storage status finished_at = status

pub data OsErrorClass : Type 0 where
  permission_error file_not_found_error not_a_directory_error : OsErrorClass
  other_error : String → OsErrorClass

-- `OSError`: its class and its `strerror`.
pub record OsError : Type 0 where
  pub class : OsErrorClass
  pub strerror : String

pub data ErrorKind : Type 0 where
  permission_denied missing_path not_a_directory os_error : ErrorKind
  hardlink_limit excluded mount_skipped : ErrorKind
  symlink_root root_error mount_missing : ErrorKind

pub data Message : Type 0 where
  no_classification overlay_skipped nsfs_skipped : Message
  explicitly_included skipped_by_default included : String → Message
  separate_filesystem : ℕ → ℕ → Message
  mount_cycle : ℕ → Message
  directory_cycle : ℕ → ℕ → Message
  excluded_by_configuration symlink_component symlink_configured no_mountinfo : Message
  dedup_limit_exceeded : ℕ → Message
  not_a_directory_at : Bytes → Message
  os_failure root_stat_failed : OsErrorClass → String → Message
  collapsed_evidence : ℕ → List (ErrorKind × ℕ) → Message

pub data CollapseReason : Type 0 where
  known_noise fan_out : CollapseReason
