-- ===== src/Diagnostics/DeletedOpen.antt =====
-- diagnostics/deleted_open.py: deleted files that a process still holds open. What lsof prints, what
-- /proc holds and the mount of a path are arguments.
pub mod Sources
pub mod Held
pub mod Gathered
pub mod Report
use watchdirs.Prelude.{
  ℕ, ◌+◌, ◌-◌, ◌*◌, ◌≡◌, String, Bool, true, false, ◌&&◌, ◌||◌, not, Option, none, some, List, [],
  ◌∷◌, ◌++◌, leb, ltb, ◌==◌, if◌then◌else◌, all, any, filter, take, length, sorted, map,
}
use watchdirs.Prelude.Bytes.{Bytes, bytes_eq, bytes_lt, starts_with}
use watchdirs.Prelude.Int.{ℤ, pos, negsuc, lt_int, sum_int}
use watchdirs.Prelude.Text.{is_digit, strip, ends_with, remove_suffix}
use watchdirs.Prelude.Strings.{codes, lower}
use watchdirs.Diagnostics.Rows.{
  GroupLabel, Relevance, ActionHint, Evidence, DeletedOpenFile, ReportWarning, lsof_not_found,
  lsof_not_executed, lsof_stderr, lsof_partial, lsof_no_output, procfs_unavailable,
  proc_root_denied, fd_directory_denied, fd_denied, procfs_size_unknown, resolver_failed,
  no_prefix_matched, is_permission_denied, DeletedOpenTotals, DeletedOpenDiagnostic,
}
use watchdirs.Diagnostics.Lsof.{parse_lsof_field_output, deleted_marker}
use watchdirs.Diagnostics.DeletedOpen.Sources.{
  Found, nothing, followed_by, LsofAnswer, ProcListing, collect_lsof_deleted_open,
  scan_procfs_deleted_open,
}

pub data Resolution : Type 0 where
  resolved : GroupLabel → Resolution
  unmatched : Resolution
  raised : String → Resolution

-- `_PSEUDO_FILESYSTEM_TYPES`
unfoldable pub pseudo_filesystem_types : List String
pseudo_filesystem_types =
    "autofs" ∷ "bpf" ∷ "cgroup" ∷ "cgroup2" ∷ "configfs" ∷ "debugfs" ∷ "devpts" ∷ "devtmpfs"
    ∷ "fusectl" ∷ "hugetlbfs" ∷ "mqueue" ∷ "proc" ∷ "pstore" ∷ "securityfs" ∷ "sysfs" ∷ "tmpfs"
    ∷ "tracefs" ∷ []

abbrev lower_codes : Option String → List ℕ
lower_codes none = []
lower_codes (some s) = map lower (codes s)

-- b"/dev/"
abbrev pub device_prefix : Bytes
device_prefix = b'/' ∷ b'd' ∷ b'e' ∷ b'v' ∷ b'/' ∷ []

-- `_classify_disk_pressure_relevance`; b"/dev/zero" starts with the prefix too
unfoldable pub classify_disk_pressure_relevance : Bytes → GroupLabel → Relevance
classify_disk_pressure_relevance path domain =
    if any (λ n. bytes_eq (codes n) (lower_codes domain.filesystem_type)) pseudo_filesystem_types
    then Relevance.non_disk_mapping
    else if starts_with path device_prefix
    then Relevance.non_disk_mapping
    else Relevance.unknown

abbrev pub is_non_disk : Relevance → Bool
is_non_disk Relevance.non_disk_mapping = true
is_non_disk Relevance.unknown = false

-- `_resolve_domain`, by what the resolver answers
resolve_domain : DeletedOpenFile → Resolution → Found
resolve_domain row (raised e) = record {
  rows = row ∷ [];
  warnings = resolver_failed row.path e ∷ [];
}
resolve_domain row unmatched = record {
  rows = row ∷ [];
  warnings = no_prefix_matched row.path ∷ [];
}
resolve_domain row (resolved domain) =
    let relevance = classify_disk_pressure_relevance row.path domain in
    record {
      rows =
          record row {
            storage_domain = some domain;
            disk_pressure_relevance = relevance;
            action_hint =
                if is_non_disk relevance then ActionHint.non_disk_hint else row.action_hint;
          }
          ∷ [];
      warnings = [];
    }

resolve_rows : (Bytes → Resolution) → List DeletedOpenFile → Found
resolve_rows resolver [] = nothing
resolve_rows resolver (row ∷ rows) =
    followed_by (resolve_domain row (resolver row.path)) (resolve_rows resolver rows)

-- the rows with their domains, behind the warnings so far
resolve_found : Option (Bytes → Resolution) → Found → Found
resolve_found none f = f
resolve_found (some resolver) f =
    let g = resolve_rows resolver f.rows in
    record { rows = g.rows; warnings = f.warnings ++ g.warnings }

-- the rows of procfs, behind the warnings about lsof
abbrev pub from_procfs : Found → Option Found → Option (Found × Evidence)
from_procfs f none = none
from_procfs f (some fallback) = some (followed_by f fallback, Evidence.procfs)

-- the rows of lsof, or of procfs behind the warnings about lsof
unfoldable pub gather : LsofAnswer → ProcListing → Option (Found × Evidence)
gather answer proc =
    let lsof = collect_lsof_deleted_open answer in
    if lsof.used_lsof
    then some (lsof.found, Evidence.lsof)
    else from_procfs lsof.found (scan_procfs_deleted_open proc)

abbrev pub key : Option ℤ → ℤ
key none = negsuc 0
key (some size) = size

-- the sort of the rows, greatest first
abbrev pub row_before : DeletedOpenFile → DeletedOpenFile → Bool
row_before a b = lt_int (key b.size_bytes) (key a.size_bytes)

abbrev size_or_zero : Option ℤ → ℤ
size_or_zero none = pos 0
size_or_zero (some size) = size

-- `row.size_bytes or 0`
abbrev pub size_of : DeletedOpenFile → ℤ
size_of row = size_or_zero row.size_bytes

abbrev pub is_relevant : DeletedOpenFile → Bool
is_relevant row = not (is_non_disk row.disk_pressure_relevance)

abbrev pub is_mapping : DeletedOpenFile → Bool
is_mapping row = is_non_disk row.disk_pressure_relevance

-- the rest of `collect_deleted_open_files`, of the rows with their domains
unfoldable pub report : ℕ → Evidence → Found → DeletedOpenDiagnostic
report limit evidence f =
    let rows = sorted row_before f.rows in
    let relevant_rows = filter is_relevant rows in
    let shown = take limit relevant_rows in
    record {
      limit = limit;
      evidence_source = evidence;
      culprits = shown;
      totals = record {
        culprit_count = length relevant_rows;
        shown_count = length shown;
        total_size_bytes = sum_int size_of relevant_rows;
        shown_size_bytes = sum_int size_of shown;
        disk_pressure_relevant_size_bytes = sum_int size_of relevant_rows;
        non_disk_mapping_size_bytes = sum_int size_of (filter is_mapping rows);
        permission_denied_count = length (filter is_permission_denied f.warnings);
      };
      truncated = ltb limit (length relevant_rows);
      warnings = f.warnings;
    }

abbrev report_of :
    ℕ → Option (Bytes → Resolution) → Option (Found × Evidence) → Option DeletedOpenDiagnostic
report_of limit resolver none = none
report_of limit resolver (some (f, evidence)) =
    some (report limit evidence (resolve_found resolver f))

-- none where listing /proc raises an error that is not caught
unfoldable pub collect_deleted_open_files :
    ℕ → LsofAnswer → ProcListing → Option (Bytes → Resolution) → Option DeletedOpenDiagnostic
unfolding resolve_found resolve_rows resolve_domain
collect_deleted_open_files limit answer proc resolver =
    report_of limit resolver (gather answer proc)
