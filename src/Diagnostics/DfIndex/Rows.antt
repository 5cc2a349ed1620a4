-- ===== src/Diagnostics/DfIndex/Rows.antt =====
-- The dataclasses of models.py that diagnostics/df_index.py reads and fills. Reasons, commands and
-- warnings are constructors in place of their texts; a ratio is its numerator and its denominator.
use watchdirs.Prelude.{ℕ, String, Bool, Option, List}
use watchdirs.Prelude.Bytes.{Bytes}
use watchdirs.Prelude.Int.{ℤ}
use watchdirs.Model.Time.{StoredTime}
use watchdirs.Diagnostics.Rows.{GroupLabel}

pub record IndexedStorageDomainTotal : Type 0 where
  pub storage_domain : GroupLabel
  pub indexed_visible_disk_bytes : ℕ
  pub indexed_visible_apparent_bytes : ℕ
  pub indexed_visible_path_count : ℕ
  pub indexed_root_paths : List Bytes
  pub indexed_mount_points : List Bytes
  pub snapshot_ids : List ℕ
  pub snapshot_statuses : List String
  pub finished_at_min : Option StoredTime
  pub finished_at_max : Option StoredTime
  pub partial_snapshot_count : ℕ
  pub unknown_mount_count : ℕ
  pub negative_total_clamped : Bool
  pub skipped_paths : List Bytes

pub record DfUsage : Type 0 where
  pub size_bytes : ℕ
  pub used_bytes : ℤ
  pub free_total_bytes : ℕ
  pub avail_unprivileged_bytes : ℕ

pub data CoverageReason : Type 0 where
  indexed_paths_skipped partial_snapshot_evidence indexed_total_clamped_negative : CoverageReason
  indexed_roots_are_subtrees_of_filesystem filesystem_stat_unavailable : CoverageReason
  overlay_mount_reuses_parent_filesystem_usage : CoverageReason

pub data LikelyReason : Type 0 where
  deleted_open_file_suspected filesystem_scope_beyond_indexed_roots : LikelyReason
  skipped_or_partial_scan_evidence docker_or_containerd_storage : LikelyReason
  reserved_or_metadata_accounting : LikelyReason

pub data Command : Type 0 where
  df docker_enrichment deleted_open_files lsof : Command

pub data DfWarning : Type 0 where
  paths_skipped partial_snapshots unknown_mount total_clamped : GroupLabel → DfWarning
  stat_unavailable : Bytes → String → DfWarning

pub record Ratio : Type 0 where
  pub numerator : ℕ
  pub denominator : ℕ

pub record DfIndexSection : Type 0 where
  pub storage_domain : GroupLabel
  pub snapshot_ids : List ℕ
  pub snapshot_statuses : List String
  pub finished_at_min : Option StoredTime
  pub finished_at_max : Option StoredTime
  pub max_snapshot_age_seconds : Option ℕ
  pub filesystem_stat_available : Bool
  pub df_usage : Option DfUsage
  pub df_used_bytes : Option ℤ
  pub indexed_visible_disk_bytes : ℕ
  pub indexed_visible_apparent_bytes : ℕ
  pub indexed_visible_path_count : ℕ
  pub indexed_root_paths : List Bytes
  pub indexed_mount_points : List Bytes
  pub partial_snapshot_count : ℕ
  pub unknown_mount_count : ℕ
  pub filesystem_scope_extends_beyond_indexed_roots : Bool
  pub coverage_reason_codes : List CoverageReason
  pub unattributed_bytes : Option ℕ
  pub unattributed_ratio : Option Ratio
  pub over_indexed_bytes : Option ℕ
  pub over_indexed_ratio : Option Ratio
  pub likely_reasons : List LikelyReason
  pub verification_commands : List Command

pub record DfIndexDiagnostic : Type 0 where
  pub limit : ℕ
  pub filesystems : List DfIndexSection
  pub truncated : Bool
  pub total_filesystem_count : ℕ
  pub warnings : List DfWarning
