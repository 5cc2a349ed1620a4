-- ===== src/Model/Rows.antt =====
-- The dataclasses of models.py that the components exchange.
use native.Mathlib.Decide.{ℕ_discrete}
use text.Mathlib.Text.{◌==◌}
use text.Mathlib.TextEquality.{eq_iff}
use watchdirs.Prelude.{ℕ, String, Bool, Option, List, inl, inr, Bool-cases, arith}
use watchdirs.Prelude.Bytes.{Bytes}
use watchdirs.Model.Status.{SnapshotStatus, ErrorKind, Message, CollapseReason}
use watchdirs.Model.Time.{StoredTime}

pub record SnapshotRecord : Type 0 where
  pub id : ℕ
  pub started_at : StoredTime
  pub finished_at : Option StoredTime
  pub root_path : String
  pub status : SnapshotStatus
  pub notes : Option String
  pub error : Option String

-- `snapshot_id` is 0 until the row is stored.
pub record DirectoryAggregate : Type 0 where
  pub snapshot_id : ℕ
  pub path : Bytes
  pub parent_path : Option Bytes
  pub depth : ℕ
  pub apparent_bytes : ℕ
  pub disk_bytes : ℕ
  pub file_count : ℕ
  pub dir_count : ℕ
  pub error : Option Message
  pub hardlink_file_count : ℕ
  pub hardlink_duplicate_count : ℕ
  pub hardlink_duplicate_disk_bytes : ℕ
  pub hardlink_first_seen_disk_bytes : ℕ
  pub collapsed : Bool
  pub collapse_reason : Option CollapseReason
  pub collapsed_dirs : Option ℕ
  pub top_child_path : Option Bytes
  pub top_child_disk_bytes : Option ℕ

pub record MountInfo : Type 0 where
  pub mount_id : ℕ
  pub parent_id : ℕ
  pub major_minor : String
  pub root : Bytes
  pub mount_point : Bytes
  pub options : List String
  pub filesystem_type : String
  pub mount_source : String
  pub super_options : List String

pub record MountDecision : Type 0 where
  pub include : Bool
  pub reason : Message
  pub filesystem_type : Option String
  pub mount_id : Option ℕ
  pub device_changed : Bool

pub record MountPolicy : Type 0 where
  pub skipped_filesystems : List String
  pub included_filesystems : List String
  pub skip_overlay : Bool
  pub skip_namespace : Bool
  pub one_filesystem : Bool

pub record CollapsePolicy : Type 0 where
  pub names : List Bytes
  pub fan_out : ℕ
  pub descendants : ℕ
  pub never : List Bytes

pub record ScanError : Type 0 where
  pub path : Bytes
  pub message : Message
  pub kind : ErrorKind

pub record ScanResult : Type 0 where
  pub root_path : Bytes
  pub rows : List DirectoryAggregate
  pub row_count : ℕ
  pub status : SnapshotStatus
  pub fatal_error : Option Message
  pub errors : List ScanError
  pub hardlink_count : ℕ

unfoldable pub String-discrete : Discrete String
String-discrete s t = elim (Bool-cases (s == t)) [
  | inl e ↦ yes ((eq_iff s t).0 e)
  | inr e ↦ no (λ p. ground (arith, (eq_iff s t).1 p))
]

unfoldable pub Message-discrete : Discrete Message
unfolding String-discrete
Message-discrete = hlevel (ℕ_discrete, String-discrete)
