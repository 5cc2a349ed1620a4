-- ===== src/Diagnostics/Rows.antt =====
-- The dataclasses of models.py that diagnostics/deleted_open.py fills. A warning is its constructor
-- with what its message names; file names, which the source decodes with surrogates, are bytes.
use watchdirs.Prelude.{ℕ, String, Bool, false, true, Option, List}
use watchdirs.Prelude.Bytes.{Bytes}
use watchdirs.Prelude.Int.{ℤ}

pub record GroupLabel : Type 0 where
  pub kind : String
  pub key : String
  pub mount_point : Option Bytes
  pub filesystem_type : Option String
  pub mount_source : Option String
  pub major_minor : Option String
  pub root : Option Bytes

pub data Relevance : Type 0 where
  unknown non_disk_mapping : Relevance

pub data ActionHint : Type 0 where
  owner_hint non_disk_hint : ActionHint

pub data Evidence : Type 0 where
  lsof procfs : Evidence

pub record DeletedOpenFile : Type 0 where
  pub pid : ℤ
  pub command : Bytes
  pub fd : Bytes
  pub size_bytes : Option ℤ
  pub path : Bytes
  pub storage_domain : Option GroupLabel
  pub disk_pressure_relevance : Relevance
  pub action_hint : ActionHint
  pub source : Evidence

pub data ReportWarning : Type 0 where
  -- deleted_open_malformed_record
  no_process_context : ReportWarning
  no_name_field : ℤ → ReportWarning
  non_numeric_pid : Bytes → ReportWarning
  -- deleted_open_missing_size
  missing_size : ℤ → Bytes → ReportWarning
  procfs_size_unknown : ℤ → Bytes → Bytes → ReportWarning
  -- lsof_unavailable
  lsof_not_found : ReportWarning
  lsof_not_executed : String → ReportWarning
  lsof_stderr : Bytes → ReportWarning
  lsof_partial : ℤ → ReportWarning
  lsof_no_output : ℤ → ReportWarning
  procfs_unavailable : ReportWarning
  -- deleted_open_permission_denied
  proc_root_denied : String → ReportWarning
  fd_directory_denied : ℤ → String → ReportWarning
  fd_denied : Bytes → ℤ → String → ReportWarning
  -- storage_domain_unresolved
  resolver_failed : Bytes → String → ReportWarning
  no_prefix_matched : Bytes → ReportWarning

-- `warning.code == "deleted_open_permission_denied"`
abbrev pub is_permission_denied : ReportWarning → Bool
is_permission_denied (proc_root_denied e) = true
is_permission_denied (fd_directory_denied pid e) = true
is_permission_denied (fd_denied fd pid e) = true
is_permission_denied _ = false

-- `warning.code == "deleted_open_missing_size"`
abbrev pub is_missing_size : ReportWarning → Bool
is_missing_size (missing_size pid path) = true
is_missing_size (procfs_size_unknown pid fd path) = true
is_missing_size _ = false

pub record DeletedOpenTotals : Type 0 where
  pub culprit_count : ℕ
  pub shown_count : ℕ
  pub total_size_bytes : ℤ
  pub shown_size_bytes : ℤ
  pub disk_pressure_relevant_size_bytes : ℤ
  pub non_disk_mapping_size_bytes : ℤ
  pub permission_denied_count : ℕ

pub record DeletedOpenDiagnostic : Type 0 where
  pub limit : ℕ
  pub evidence_source : Evidence
  pub culprits : List DeletedOpenFile
  pub totals : DeletedOpenTotals
  pub truncated : Bool
  pub warnings : List ReportWarning
