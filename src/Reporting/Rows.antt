-- ===== src/Reporting/Rows.antt =====
-- `DiffRow` and `FrontierRow` of models.py. The six metrics of an observation are a record of their
-- own, once for the previous and once for the current one.
use watchdirs.Prelude.{ℕ, String, Bool, Option}
use watchdirs.Prelude.Bytes.{Bytes}
use watchdirs.Prelude.Int.{ℤ, pos_part}
use watchdirs.Diagnostics.Rows.{GroupLabel}

pub data Classification : Type 0 where
  created grown shrunk deleted unchanged hidden_by_collapse : Classification

pub record Metrics : Type 0 where
  pub apparent_bytes : ℕ
  pub disk_bytes : ℕ
  pub hardlink_file_count : ℕ
  pub hardlink_duplicate_count : ℕ
  pub hardlink_duplicate_disk_bytes : ℕ
  pub hardlink_first_seen_disk_bytes : ℕ

pub record DiffRow : Type 0 where
  pub root_path : String
  pub baseline_snapshot_id : ℕ
  pub current_snapshot_id : ℕ
  pub path : Bytes
  pub parent_path : Option Bytes
  pub depth : ℕ
  pub classification : Classification
  pub previous : Metrics
  pub current : Metrics
  pub apparent_bytes_delta : ℤ
  pub disk_bytes_delta : ℤ
  pub hardlink_file_count_delta : ℤ
  pub hardlink_duplicate_count_delta : ℤ
  pub hardlink_duplicate_disk_bytes_delta : ℤ
  pub hardlink_first_seen_disk_bytes_delta : ℤ
  pub error : Option String
  pub collapsed : Bool
  pub collapse_reason : Option String
  pub collapsed_dirs : Option ℕ
  pub top_child_path : Option Bytes
  pub top_child_disk_bytes : Option ℕ
  pub group : Option GroupLabel

-- the growth of a row that grew
abbrev pub gain : DiffRow → ℕ
gain row = pos_part row.disk_bytes_delta

pub data Reason : Type 0 where
  dominates_and_hides dominates_ancestors suppresses_descendants highest_signal : Reason

pub record FrontierRow : Type 0 where
  pub row : DiffRow
  pub suppressed_descendant_count : ℕ
  pub suppressed_ancestor_count : ℕ
  pub reason : Reason
