-- ===== src/Scanner/Policy.antt =====
-- The decisions of collect/scanner.py: excluded and protected paths, collapsing, descending, and
-- what a file adds to the disk usage.
use watchdirs.Prelude.{
  ℕ, ◌+◌, Bool, true, false, ◌||◌, Option, none, some, List, [], ◌∷◌, ◌++◌, ltb, ◌==◌,
  if◌then◌else◌, any, sum_of, sorted,
}
use watchdirs.Prelude.Bytes.{Bytes, bytes_eq, starts_with, path_separator}
use watchdirs.Model.{
  CollapsePolicy, CollapseReason, Message, OsErrorClass, OsError, ErrorKind, ScanError,
}

-- `_is_excluded`
pub is_excluded : Bytes → List Bytes → Bool
is_excluded path exclude_paths =
    any
      (λ excluded.
        bytes_eq path excluded
        || (bytes_eq excluded path_separator || starts_with path (excluded ++ path_separator)))
      exclude_paths

-- `_is_same_or_descendant`
pub is_same_or_descendant : Bytes → Bytes → Bool
is_same_or_descendant path ancestor =
    bytes_eq path ancestor
    || (if bytes_eq ancestor path_separator
        then starts_with path path_separator
        else starts_with path (ancestor ++ path_separator))

-- `_is_protected_path`
pub is_protected_path : Bytes → List Bytes → Bool
is_protected_path path protected_paths =
    any (λ p. is_same_or_descendant path p || is_same_or_descendant p path) protected_paths

-- `path_raw.rsplit(b"/", 1)[-1]`
pub basename_from : Bytes → Bytes → Bytes
basename_from name [] = name
basename_from name (c ∷ cs) = basename_from (if c == b'/' then cs else name) cs

abbrev pub basename : Bytes → Bytes
basename path = basename_from path path

-- `_initial_collapse_reason`
unfoldable pub initial_collapse_reason :
    Bytes → Option CollapsePolicy → List Bytes → Option CollapseReason
initial_collapse_reason path none never = none
initial_collapse_reason path (some policy) never =
    if is_protected_path path never
    then none
    else if any (λ n. bytes_eq n (basename path)) policy.names
    then some CollapseReason.known_noise
    else none

-- `_error_kind`
unfoldable pub error_kind : OsErrorClass → ErrorKind
error_kind OsErrorClass.permission_error = ErrorKind.permission_denied
error_kind OsErrorClass.file_not_found_error = ErrorKind.missing_path
error_kind OsErrorClass.not_a_directory_error = ErrorKind.not_a_directory
error_kind (OsErrorClass.other_error name) = ErrorKind.os_error

-- `_scan_error` with `_format_os_error`
unfoldable pub scan_error : Bytes → OsError → ScanError
scan_error path e = record {
  path = path;
  message = Message.os_failure e.class e.strerror;
  kind = error_kind e.class;
}

-- `_is_snapshot_completeness_error`
abbrev pub is_completeness_kind : ErrorKind → Bool
is_completeness_kind ErrorKind.missing_path = false
is_completeness_kind _ = true

-- the place of a kind in the order of the texts
abbrev pub kind_rank : ErrorKind → ℕ
kind_rank ErrorKind.excluded = 0
kind_rank ErrorKind.hardlink_limit = 1
kind_rank ErrorKind.missing_path = 2
kind_rank ErrorKind.mount_missing = 3
kind_rank ErrorKind.mount_skipped = 4
kind_rank ErrorKind.not_a_directory = 5
kind_rank ErrorKind.os_error = 6
kind_rank ErrorKind.permission_denied = 7
kind_rank ErrorKind.root_error = 8
kind_rank ErrorKind.symlink_root = 9

-- `counts[kind] = counts.get(kind, 0) + n`
pub add_evidence : ErrorKind → ℕ → List (ErrorKind × ℕ) → List (ErrorKind × ℕ)
add_evidence kind n [] = (kind, n) ∷ []
add_evidence kind n ((k, m) ∷ counts) =
    if kind_rank k == kind_rank kind
    then (k, m + n) ∷ counts
    else (k, m) ∷ add_evidence kind n counts

-- `_merge_evidence_counts`
pub merge_evidence : List (ErrorKind × ℕ) → List (ErrorKind × ℕ) → List (ErrorKind × ℕ)
merge_evidence target [] = target
merge_evidence target ((kind, count) ∷ source) =
    merge_evidence (add_evidence kind count target) source

-- `_collapsed_evidence_summary`
pub collapsed_evidence_summary : List (ErrorKind × ℕ) → Option Message
collapsed_evidence_summary [] = none
collapsed_evidence_summary (c ∷ counts) = some (
    Message.collapsed_evidence (sum_of (λ k. k.1) (c ∷ counts))
      (sorted (λ a b. ltb (kind_rank a.0) (kind_rank b.0)) (c ∷ counts)))
