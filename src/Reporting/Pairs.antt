-- ===== src/Reporting/Pairs.antt =====
-- reporting/pairs.py: which two snapshots a report compares. A warning is its constructor with the
-- root and what its message names.
pub mod Comparable
pub mod Roots
pub mod Window
use watchdirs.Prelude.{
  ℕ, String, Bool, true, false, ◌&&◌, ◌||◌, not, Option, none, some, List, [], ◌∷◌, ◌++◌, ltb, ◌==◌,
  if◌then◌else◌, find?, max,
}
use watchdirs.Prelude.Dict.{string_eq}
use watchdirs.Model.{SnapshotRecord, SnapshotStatus, snapshot_status_from_storage}
use watchdirs.Model.Time.{DateTime, StoredTime, instant}

pub data ReportError : Type 0 where
  invalid_snapshot_pair : ℕ → ℕ → ReportError
  snapshot_not_found : List ℕ → ReportError
  snapshot_root_mismatch : ℕ → ℕ → ReportError
  unusable_snapshot_pair : List ℕ → ReportError
  invalid_snapshot_pair_order : ℕ → ℕ → ReportError
  invalid_snapshot_timestamp : ℕ → ReportError
  no_snapshot_pairs : ReportError
  -- `OverflowError`: a cutoff before year 1
  cutoff_overflow : ReportError

pub data Report {ℓ} (A : Type ℓ) : Type ℓ where
  raised : ReportError → Report A
  returned : A → Report A

pub data ReportWarning : Type 0 where
  running_snapshot_excluded failed_snapshot_excluded invalid_timestamp : String → ℕ → ReportWarning
  insufficient_same_root_snapshots : String → ReportWarning
  baseline_before_since_unavailable : String → ℕ → ℕ → ReportWarning
  partial_snapshot : String → ReportWarning

pub record SnapshotPair : Type 0 where
  pub root_path : String
  pub baseline : SnapshotRecord
  pub current : SnapshotRecord
  pub warnings : List ReportWarning

-- `_snapshot_record_from_row`
abbrev pub snapshot_record_from_row : SnapshotRecord → SnapshotRecord
snapshot_record_from_row row = record row {
  status = snapshot_status_from_storage row.status row.finished_at;
}

-- `parse_finished_at_utc`; none where it raises `ValueError`, as it does without an offset
unfoldable pub parse_finished_at_utc : Option StoredTime → Option DateTime
parse_finished_at_utc (some (StoredTime.utc t)) = some t
parse_finished_at_utc (some (StoredTime.naive t)) = none
parse_finished_at_utc (some (StoredTime.unparseable text)) = none
parse_finished_at_utc none = none

-- a validator, which raises or returns nothing, and what follows it
abbrev pub checked {ℓ} : {A : Type ℓ} → Option ReportError → Report A → Report A
checked none rest = rest
checked (some e) rest = raised e

abbrev pub is_unusable : SnapshotStatus → Bool
is_unusable SnapshotStatus.running = true
is_unusable SnapshotStatus.failed = true
is_unusable _ = false

abbrev pub is_partial : SnapshotStatus → Bool
is_partial SnapshotStatus.partial = true
is_partial _ = false

-- `_validate_distinct_snapshot_ids`
abbrev pub validate_distinct_snapshot_ids : ℕ → ℕ → Option ReportError
validate_distinct_snapshot_ids baseline current =
    if baseline == current then some (invalid_snapshot_pair baseline current) else none

-- `_validate_snapshot_pair_roots`, which compares paths: the stored texts are canonical, so that they
-- are the same path exactly when they are the same text.
abbrev pub validate_snapshot_pair_roots : SnapshotRecord → SnapshotRecord → Option ReportError
validate_snapshot_pair_roots baseline current =
    if string_eq.beq baseline.root_path current.root_path
    then none
    else some (snapshot_root_mismatch baseline.id current.id)

abbrev unusable_id : SnapshotRecord → List ℕ
unusable_id s = if is_unusable s.status then s.id ∷ [] else []

-- `_validate_snapshot_pair_statuses`
abbrev pub validate_snapshot_pair_statuses : SnapshotRecord → SnapshotRecord → Option ReportError
validate_snapshot_pair_statuses baseline current =
    if is_unusable baseline.status || is_unusable current.status
    then some (unusable_snapshot_pair (unusable_id baseline ++ unusable_id current))
    else none

-- `(a.finished_at, a.id) < (b.finished_at, b.id)`
abbrev pub before : DateTime → ℕ → DateTime → ℕ → Bool
before t id u jd = ltb (instant t) (instant u) || (instant t == instant u && ltb id jd)

-- `_validate_snapshot_pair_order`, of the two times that are parsed in this order
abbrev pub validate_snapshot_pair_order :
    SnapshotRecord → SnapshotRecord → Option DateTime → Option DateTime → Option ReportError
validate_snapshot_pair_order baseline current none u = some (invalid_snapshot_timestamp baseline.id)
validate_snapshot_pair_order baseline current (some t) none =
    some (invalid_snapshot_timestamp current.id)
validate_snapshot_pair_order baseline current (some t) (some u) =
    if before t baseline.id u current.id
    then none
    else some (invalid_snapshot_pair_order baseline.id current.id)

-- `_snapshot_pair_warnings`
abbrev pub snapshot_pair_warnings : SnapshotRecord → SnapshotRecord → List ReportWarning
snapshot_pair_warnings baseline current =
    if is_partial baseline.status || is_partial current.status
    then partial_snapshot baseline.root_path ∷ []
    else []

-- what follows `_load_snapshot_pair_by_ids`
unfoldable pub compare_loaded : SnapshotRecord → SnapshotRecord → Report SnapshotPair
compare_loaded baseline current = checked (validate_snapshot_pair_roots baseline current) (
    checked (validate_snapshot_pair_statuses baseline current) (
      checked
        (validate_snapshot_pair_order baseline current (parse_finished_at_utc baseline.finished_at)
          (parse_finished_at_utc current.finished_at))
        (returned (record {
          root_path = baseline.root_path;
          baseline = baseline;
          current = current;
          warnings = snapshot_pair_warnings baseline current;
        }))))

-- `_load_snapshot_pair_by_ids`, of the two rows that are found
unfoldable pub load_snapshot_pair :
    ℕ → ℕ → Option SnapshotRecord → Option SnapshotRecord → Report SnapshotPair
load_snapshot_pair b c none none =
    raised (snapshot_not_found (if ltb b c then b ∷ c ∷ [] else c ∷ b ∷ []))
load_snapshot_pair b c none (some current) = raised (snapshot_not_found (b ∷ []))
load_snapshot_pair b c (some baseline) none = raised (snapshot_not_found (c ∷ []))
load_snapshot_pair b c (some baseline) (some current) =
    compare_loaded (snapshot_record_from_row baseline) (snapshot_record_from_row current)

-- `WHERE id IN (?, ?)`
abbrev pub row_of : ℕ → List SnapshotRecord → Option SnapshotRecord
row_of id snapshots = find? (λ s. s.id == id) snapshots

unfoldable pub resolve_snapshot_pair_by_ids : List SnapshotRecord → ℕ → ℕ → Report SnapshotPair
resolve_snapshot_pair_by_ids snapshots b c =
    checked (validate_distinct_snapshot_ids b c)
      (load_snapshot_pair b c (row_of b snapshots) (row_of c snapshots))
