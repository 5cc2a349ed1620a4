-- ===== src/Diagnostics/DfIndex/Mismatch.antt =====
-- diagnostics/df_index.py: what decides about one storage domain.
use watchdirs.Prelude.{
  ℕ, ◌-◌, ◌*◌, ◌/◌, String, Bool, false, ◌&&◌, ◌||◌, not, Option, none, some, List, [], ◌∷◌, ◌++◌,
  leb, ltb, ◌==◌, if◌then◌else◌, all,
}
use watchdirs.Prelude.Bytes.{Bytes, bytes_eq, starts_with, path_separator}
use watchdirs.Prelude.Int.{minus}
use watchdirs.Prelude.Strings.{codes}
use watchdirs.Model.Time.{DateTime, instant}
use watchdirs.Reporting.Pairs.{parse_finished_at_utc}
use watchdirs.Filesystems.Usage.{StatVfs}
use watchdirs.Diagnostics.DfIndex.Rows.{
  IndexedStorageDomainTotal, DfUsage, LikelyReason, deleted_open_file_suspected,
  filesystem_scope_beyond_indexed_roots, skipped_or_partial_scan_evidence,
  docker_or_containerd_storage, reserved_or_metadata_accounting, Command, df, docker_enrichment,
  deleted_open_files, lsof, Ratio,
}

-- `MISMATCH_MIN_BYTES`
abbrev pub mismatch_min_bytes : ℕ
mismatch_min_bytes = 1073741824

-- `_filesystem_usage`
abbrev pub filesystem_usage : StatVfs → DfUsage
filesystem_usage s =
    let size = s.f_blocks * s.f_frsize in
    let free_total = s.f_bfree * s.f_frsize in
    record {
      size_bytes = size;
      used_bytes = minus size free_total;
      free_total_bytes = free_total;
      avail_unprivileged_bytes = s.f_bavail * s.f_frsize;
    }

-- equality with a text of an optional field
abbrev pub is_text : Option String → String → Bool
is_text none t = false
is_text (some s) t = bytes_eq (codes s) (codes t)

-- `mount_point not in (None, b"/")`
abbrev pub is_below_root : Option Bytes → Bool
is_below_root none = false
is_below_root (some point) = not (bytes_eq point path_separator)

-- `_is_overlay_mount_accounting_alias`
unfoldable pub is_overlay_mount_accounting_alias : IndexedStorageDomainTotal → Bool
is_overlay_mount_accounting_alias domain =
    is_text domain.storage_domain.filesystem_type "overlay"
    && (is_text domain.storage_domain.mount_source "overlay"
        && (is_below_root domain.storage_domain.mount_point
            && domain.indexed_visible_disk_bytes == 0))

abbrev first_of : List Bytes → Option Bytes → Option Bytes
first_of [] other = other
first_of (x ∷ xs) other = some x

abbrev or_else : Option Bytes → Option Bytes → Option Bytes
or_else none other = other
or_else (some x) other = some x

-- `_probe_path`; none where it raises `ValueError`
unfoldable pub probe_path : IndexedStorageDomainTotal → Option Bytes
probe_path domain =
    or_else domain.storage_domain.mount_point
      (first_of domain.indexed_mount_points (first_of domain.indexed_root_paths none))

-- `_is_subtree`
abbrev pub is_subtree : Bytes → Bytes → Bool
is_subtree path ancestor =
    if bytes_eq ancestor path_separator
    then starts_with path path_separator && not (bytes_eq path path_separator)
    else starts_with path (ancestor ++ path_separator)

abbrev is_strict : Bytes → Bytes → Bool
is_strict mount_point root_path =
    not (bytes_eq root_path mount_point || not (is_subtree root_path mount_point))

-- the loop over the roots, and `bool(domain.indexed_root_paths)`
abbrev all_strict : Bytes → List Bytes → Bool
all_strict mount_point [] = false
all_strict mount_point (r ∷ rs) = all (is_strict mount_point) (r ∷ rs)

abbrev scope_below : Option Bytes → List Bytes → Bool
scope_below none roots = false
scope_below (some mount_point) roots = all_strict mount_point roots

-- `_default_scope_extends`
unfoldable pub default_scope_extends : IndexedStorageDomainTotal → Bool
default_scope_extends domain =
    scope_below domain.storage_domain.mount_point domain.indexed_root_paths

abbrev seconds_between : Option DateTime → Option DateTime → Option ℕ
seconds_between (some later) (some earlier) = some ((instant later - instant earlier) / 1000000)
seconds_between none earlier = none
seconds_between (some later) none = none

-- `_max_snapshot_age_seconds`
abbrev pub max_snapshot_age_seconds : IndexedStorageDomainTotal → Option DateTime → Option ℕ
max_snapshot_age_seconds domain generated =
    seconds_between generated (parse_finished_at_utc domain.finished_at_min)

-- `ratio is not None and ratio >= MISMATCH_MIN_RATIO`
abbrev pub is_material_ratio : Option Ratio → Bool
is_material_ratio none = false
is_material_ratio (some r) = leb r.denominator (r.numerator * 20)

abbrev pub is_material : ℕ → Option Ratio → Bool
is_material unattributed ratio = leb mismatch_min_bytes unattributed && is_material_ratio ratio

abbrev pub when {ℓ} : {A : Type ℓ} → Bool → A → List A
when b a = if b then a ∷ [] else []

-- the reasons of a material mismatch
abbrev pub material_reasons : Bool → Bool → ℕ → List LikelyReason
material_reasons scope_extends is_partial unknown_mount_count =
    let deleted_open_allowed = not scope_extends && not is_partial in
    (if deleted_open_allowed
      then deleted_open_file_suspected ∷ []
      else when scope_extends filesystem_scope_beyond_indexed_roots
        ++ when is_partial skipped_or_partial_scan_evidence)
    ++ (when (ltb 0 unknown_mount_count && not is_partial) skipped_or_partial_scan_evidence
        ++ (docker_or_containerd_storage ∷ reserved_or_metadata_accounting ∷ []))

abbrev pub material_commands : Bool → Bool → List Command
material_commands scope_extends is_partial =
    df
    ∷ docker_enrichment
    ∷ (if not scope_extends && not is_partial then deleted_open_files ∷ lsof ∷ [] else [])

-- `_classify_mismatch`
unfoldable pub classify_mismatch :
    ℕ → Option Ratio → Bool → Bool → ℕ → List LikelyReason × List Command
classify_mismatch unattributed ratio scope_extends is_partial unknown_mount_count =
    if is_material unattributed ratio
    then (
      material_reasons scope_extends is_partial unknown_mount_count,
      material_commands scope_extends is_partial,
    )
    else ([], [])
