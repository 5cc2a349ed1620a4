-- ===== src/Diagnostics/DfIndex.antt =====
-- diagnostics/df_index.py: the bytes that a filesystem uses against those that the index sees. The
-- totals of the index, the answers of `os.statvfs`, the clock and the scope provider are arguments.
-- The ratio of two byte counts is compared with 0.05 exactly, as the source does in floats for file
-- systems below 2 ^ 56 bytes.
pub mod Rows
pub mod Mismatch
pub mod Reconciled
pub mod Index
use watchdirs.Prelude.{
  ℕ, ◌+◌, ◌-◌, ◌*◌, ◌/◌, String, Bool, true, false, ◌&&◌, ◌||◌, not, Option, none, some, List, [],
  ◌∷◌, ◌++◌, leb, ltb, ◌==◌, if◌then◌else◌, ◌⊎◌, inl, inr, any, all, length, take, sorted,
}
use watchdirs.Prelude.Bytes.{Bytes, bytes_eq, bytes_lt, starts_with, path_separator}
use watchdirs.Prelude.Int.{ℤ, pos, minus, ◌-ℤ◌, pos_part}
use watchdirs.Prelude.Strings.{codes}
use watchdirs.Model.Time.{DateTime, StoredTime, instant}
use watchdirs.Reporting.Pairs.{parse_finished_at_utc}
use watchdirs.Filesystems.Usage.{StatVfs}
use watchdirs.Diagnostics.Rows.{GroupLabel}
use watchdirs.Diagnostics.DfIndex.Rows.*
use watchdirs.Diagnostics.DfIndex.Mismatch.{
  filesystem_usage, is_overlay_mount_accounting_alias, probe_path, default_scope_extends,
  max_snapshot_age_seconds, when, classify_mismatch,
}

-- none where the denominator is 0
abbrev pub ratio_of : ℕ → ℕ → Option Ratio
ratio_of n d = if ltb 0 d then some (record { numerator = n; denominator = d }) else none

abbrev pub has_skipped : IndexedStorageDomainTotal → Bool
has_skipped domain = elim (domain.skipped_paths) [ [] ↦ false | _ ↦ true ]

abbrev pub is_partial : IndexedStorageDomainTotal → Bool
is_partial domain = ltb 0 domain.partial_snapshot_count

-- the codes and warnings before the call of `os.statvfs`
abbrev pub coverage_codes : IndexedStorageDomainTotal → Bool → List CoverageReason
coverage_codes domain scope_extends =
    when (has_skipped domain) indexed_paths_skipped
    ++ (when (is_partial domain) partial_snapshot_evidence
        ++ (when domain.negative_total_clamped indexed_total_clamped_negative
            ++ when scope_extends indexed_roots_are_subtrees_of_filesystem))

abbrev pub domain_warnings : IndexedStorageDomainTotal → List DfWarning
domain_warnings domain =
    when (has_skipped domain) (paths_skipped domain.storage_domain)
    ++ (when (is_partial domain) (partial_snapshots domain.storage_domain)
        ++ (when (ltb 0 domain.unknown_mount_count) (unknown_mount domain.storage_domain)
            ++ when domain.negative_total_clamped (total_clamped domain.storage_domain)))

-- the section where `os.statvfs` raises
abbrev pub unavailable_section :
    IndexedStorageDomainTotal → Option ℕ → Bool → List CoverageReason → DfIndexSection
unavailable_section domain age scope_extends codes_ = record {
  storage_domain = domain.storage_domain;
  snapshot_ids = domain.snapshot_ids;
  snapshot_statuses = domain.snapshot_statuses;
  finished_at_min = domain.finished_at_min;
  finished_at_max = domain.finished_at_max;
  max_snapshot_age_seconds = age;
  filesystem_stat_available = false;
  df_usage = none;
  df_used_bytes = none;
  indexed_visible_disk_bytes = domain.indexed_visible_disk_bytes;
  indexed_visible_apparent_bytes = domain.indexed_visible_apparent_bytes;
  indexed_visible_path_count = domain.indexed_visible_path_count;
  indexed_root_paths = domain.indexed_root_paths;
  indexed_mount_points = domain.indexed_mount_points;
  partial_snapshot_count = domain.partial_snapshot_count;
  unknown_mount_count = domain.unknown_mount_count;
  filesystem_scope_extends_beyond_indexed_roots = scope_extends;
  coverage_reason_codes = codes_;
  unattributed_bytes = none;
  unattributed_ratio = none;
  over_indexed_bytes = none;
  over_indexed_ratio = none;
  likely_reasons = [];
  verification_commands = [];
}

-- `unattributed` and `over_indexed`
abbrev pub unattributed_of : IndexedStorageDomainTotal → ℤ → ℕ
unattributed_of domain used =
    if is_overlay_mount_accounting_alias domain
    then 0
    else pos_part (used -ℤ pos domain.indexed_visible_disk_bytes)

abbrev pub over_indexed_of : IndexedStorageDomainTotal → ℤ → ℕ
over_indexed_of domain used =
    if is_overlay_mount_accounting_alias domain
    then 0
    else pos_part (pos domain.indexed_visible_disk_bytes -ℤ used)

-- the section where it answers
abbrev pub available_section :
    IndexedStorageDomainTotal → Option ℕ → Bool → List CoverageReason → DfUsage → DfIndexSection
available_section domain age scope_extends codes_ usage =
    let unattributed = unattributed_of domain usage.used_bytes in
    let over_indexed = over_indexed_of domain usage.used_bytes in
    let denominator = pos_part usage.used_bytes in
    let mismatch =
      classify_mismatch unattributed (ratio_of unattributed denominator) scope_extends
        (is_partial domain || has_skipped domain) domain.unknown_mount_count in
    record (unavailable_section domain age scope_extends codes_) {
      filesystem_stat_available = true;
      df_usage = some usage;
      df_used_bytes = some usage.used_bytes;
      coverage_reason_codes =
          codes_
          ++ when (is_overlay_mount_accounting_alias domain)
              overlay_mount_reuses_parent_filesystem_usage;
      unattributed_bytes = some unattributed;
      unattributed_ratio = ratio_of unattributed denominator;
      over_indexed_bytes = some over_indexed;
      over_indexed_ratio = ratio_of over_indexed denominator;
      likely_reasons = mismatch.0;
      verification_commands = mismatch.1;
    }

-- the rest of `_build_section`, by the answer of `os.statvfs` at the probe path
section_at :
    IndexedStorageDomainTotal
    → Option ℕ
    → Bool
    → Bytes
    → String ⊎ StatVfs
    → DfIndexSection × List DfWarning
section_at domain age scope_extends path (inl error) = (
  unavailable_section domain age scope_extends
      (coverage_codes domain scope_extends ++ (filesystem_stat_unavailable ∷ [])),
  domain_warnings domain ++ (stat_unavailable path error ∷ []),
)
section_at domain age scope_extends path (inr s) = (
  available_section domain age scope_extends (coverage_codes domain scope_extends)
      (filesystem_usage s),
  domain_warnings domain,
)

abbrev pub scope_extends_of :
    Option (IndexedStorageDomainTotal → Bool) → IndexedStorageDomainTotal → Bool
scope_extends_of none domain = default_scope_extends domain
scope_extends_of (some provider) domain = provider domain

-- `DfIndexProviders`, with the clock's answer
pub record Providers : Type 0 where
  pub statvfs : Bytes → String ⊎ StatVfs
  pub generated_at : Option DateTime
  pub scope : Option (IndexedStorageDomainTotal → Bool)

abbrev section_by :
    Providers → IndexedStorageDomainTotal → Option Bytes → Option (DfIndexSection × List DfWarning)
section_by p domain none = none
section_by p domain (some path) = some (
    section_at domain (max_snapshot_age_seconds domain p.generated_at)
      (scope_extends_of p.scope domain) path (p.statvfs path))

-- `_build_section`; none where no path is there to probe
pub build_section : Providers → IndexedStorageDomainTotal → Option (DfIndexSection × List DfWarning)
build_section p domain = section_by p domain (probe_path domain)

abbrev add_section :
    Option (DfIndexSection × List DfWarning)
    → Option (List DfIndexSection × List DfWarning)
    → Option (List DfIndexSection × List DfWarning)
add_section none rest = none
add_section (some s) none = none
add_section (some (s, ws)) (some (ss, vs)) = some (s ∷ ss, ws ++ vs)

-- the loop over the domains
build_sections :
    Providers → List IndexedStorageDomainTotal → Option (List DfIndexSection × List DfWarning)
build_sections p [] = some ([], [])
build_sections p (domain ∷ domains) =
    add_section (build_section p domain) (build_sections p domains)

-- the first sort, by the key of the storage domain
abbrev pub key_lt : DfIndexSection → DfIndexSection → Bool
key_lt a b = bytes_lt (codes a.storage_domain.key) (codes b.storage_domain.key)

abbrev pub or_zero : Option ℕ → ℕ
or_zero none = 0
or_zero (some n) = n

-- the second sort, in reverse: by availability, then by what is unattributed
abbrev pub more_actionable : DfIndexSection → DfIndexSection → Bool
more_actionable a b =
    if a.filesystem_stat_available
    then (if b.filesystem_stat_available
        then ltb (or_zero b.unattributed_bytes) (or_zero a.unattributed_bytes)
        else true)
    else (if b.filesystem_stat_available
        then false
        else ltb (or_zero b.unattributed_bytes) (or_zero a.unattributed_bytes))

abbrev index_of : ℕ → Option (List DfIndexSection × List DfWarning) → Option DfIndexDiagnostic
index_of limit none = none
index_of limit (some (sections, warnings)) =
    let ordered = sorted more_actionable (sorted key_lt sections) in
    some (record {
      limit = limit;
      filesystems = take limit ordered;
      truncated = ltb limit (length ordered);
      total_filesystem_count = length ordered;
      warnings = warnings;
    })

unfoldable pub build_df_index_diagnostic :
    Providers → ℕ → List IndexedStorageDomainTotal → Option DfIndexDiagnostic
unfolding build_sections
build_df_index_diagnostic p limit domains = index_of limit (build_sections p domains)
