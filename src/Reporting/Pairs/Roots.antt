-- ===== src/Reporting/Pairs/Roots.antt =====
-- `resolve_snapshot_pairs` of reporting/pairs.py: for each root the newest snapshot and the baseline
-- that lies `since` before it. The rows are those of the SELECT, in its order.
use watchdirs.Prelude.{
  ℕ, ◌+◌, ◌-◌, String, Bool, ◌&&◌, ◌||◌, Option, none, some, List, [], ◌∷◌, ◌++◌, ltb, leb, ◌==◌,
  if◌then◌else◌, sorted, any, ◌⊎◌, inl, inr,
}
use watchdirs.Prelude.Dict.{string_eq}
use watchdirs.Prelude.Sorting.{init_of, last_of, last_where}
use watchdirs.Model.{SnapshotRecord, SnapshotStatus}
use watchdirs.Model.Time.{DateTime, instant, micros_per_day}
use watchdirs.Reporting.Pairs.{
  Report, raised, returned, cutoff_overflow, no_snapshot_pairs, ReportWarning,
  running_snapshot_excluded, failed_snapshot_excluded, invalid_timestamp,
  insufficient_same_root_snapshots, baseline_before_since_unavailable, partial_snapshot,
  SnapshotPair, snapshot_record_from_row, parse_finished_at_utc, is_partial, before,
}

-- an element of `usable`
abbrev pub Usable : Type 0
Usable = SnapshotRecord × DateTime

abbrev pub usable_lt : Usable → Usable → Bool
usable_lt a b = before a.1 a.0.id b.1 b.0.id

abbrev dated : String → SnapshotRecord → Option DateTime → ReportWarning ⊎ Usable
dated root s none = inl (invalid_timestamp root s.id)
dated root s (some t) = inr (s, t)

-- a row of the inner loop: the warning that excludes it (`_snapshot_exclusion_warning`, or that its
-- time is invalid), or the usable snapshot
abbrev pub usable_or_warning : String → SnapshotRecord → ReportWarning ⊎ Usable
usable_or_warning root s = elim s.status [
  | SnapshotStatus.running ↦ inl (running_snapshot_excluded root s.id)
  | SnapshotStatus.failed ↦ inl (failed_snapshot_excluded root s.id)
  | _ ↦ dated root s (parse_finished_at_utc s.finished_at)
]

abbrev pub add_usable : ReportWarning ⊎ Usable → List Usable → List Usable
add_usable (inl w) us = us
add_usable (inr u) us = u ∷ us

abbrev pub add_warning : ReportWarning ⊎ Usable → List ReportWarning → List ReportWarning
add_warning (inl w) ws = w ∷ ws
add_warning (inr u) ws = ws

-- `usable` and the warnings of a root's rows, after the inner loop
unfoldable pub usable_rows : String → List SnapshotRecord → List Usable
usable_rows root [] = []
usable_rows root (row ∷ rows) =
    add_usable (usable_or_warning root (snapshot_record_from_row row)) (usable_rows root rows)

pub exclusions : String → List SnapshotRecord → List ReportWarning
exclusions root [] = []
exclusions root (row ∷ rows) =
    add_warning (usable_or_warning root (snapshot_record_from_row row)) (exclusions root rows)

abbrev partial_warning : String → SnapshotRecord → SnapshotRecord → List ReportWarning
partial_warning root baseline current =
    if is_partial current.status || is_partial baseline.status
    then partial_snapshot root ∷ []
    else []

-- a pair with its warnings, the first of them given
abbrev pub pair_with : String → List ReportWarning → SnapshotRecord → SnapshotRecord → SnapshotPair
pair_with root warnings baseline current = record {
  root_path = root;
  baseline = baseline;
  current = current;
  warnings = warnings ++ partial_warning root baseline current;
}

-- the baseline: the last at or before the cutoff, or else the oldest, with a warning
abbrev pub with_baseline : String → ℕ → Usable → SnapshotRecord → Option Usable → SnapshotPair
with_baseline root cutoff oldest current (some baseline) = pair_with root [] baseline.0 current
with_baseline root cutoff oldest current none =
    pair_with root (baseline_before_since_unavailable root cutoff oldest.0.id ∷ []) oldest.0 current

-- `item[1] <= cutoff`
abbrev pub at_or_before : ℕ → Usable → Bool
at_or_before cutoff u = leb (instant u.1) cutoff

-- a root whose usable snapshots are sorted: its pair, or none where there are fewer than two
unfoldable pub resolve_sorted : ℕ → String → List Usable → Report (Option SnapshotPair)
resolve_sorted since root [] = returned none
resolve_sorted since root (u ∷ []) = returned none
resolve_sorted since root (u ∷ v ∷ us) =
    let current = last_of v us in
    let cutoff = instant current.1 - since in
    if ltb (instant current.1) (since + micros_per_day)
    then raised cutoff_overflow
    else returned (
        some (
          with_baseline root cutoff u current.0
            (last_where (at_or_before cutoff) (u ∷ init_of v us))))

unfoldable pub resolve_root : ℕ → String → List SnapshotRecord → Report (Option SnapshotPair)
resolve_root since root rows = resolve_sorted since root (sorted usable_lt (usable_rows root rows))

-- `grouped_rows.setdefault(root, []).append(row)`
pub add_row :
    SnapshotRecord → List (String × List SnapshotRecord) → List (String × List SnapshotRecord)
add_row row [] = (row.root_path, row ∷ []) ∷ []
add_row row ((root, rows) ∷ groups) =
    if string_eq.beq root row.root_path
    then (root, rows ++ (row ∷ [])) ∷ groups
    else (root, rows) ∷ add_row row groups

pub group_rows :
    List (String × List SnapshotRecord) → List SnapshotRecord → List (String × List SnapshotRecord)
group_rows groups [] = groups
group_rows groups (row ∷ rows) = group_rows (add_row row groups) rows

-- what a root adds to the warnings and to the pairs
abbrev root_warnings : String → List SnapshotRecord → Option SnapshotPair → List ReportWarning
root_warnings root rows none = exclusions root rows ++ (insufficient_same_root_snapshots root ∷ [])
root_warnings root rows (some pair) = exclusions root rows ++ pair.warnings

abbrev add_pair : Option SnapshotPair → List SnapshotPair → List SnapshotPair
add_pair none pairs = pairs
add_pair (some pair) pairs = pair ∷ pairs

abbrev add_root :
    String
    → List SnapshotRecord
    → Report (Option SnapshotPair)
    → Report (List SnapshotPair × List ReportWarning)
    → Report (List SnapshotPair × List ReportWarning)
add_root root rows (raised e) rest = raised e
add_root root rows (returned pair) (raised e) = raised e
add_root root rows (returned pair) (returned (pairs, warnings)) =
    returned (add_pair pair pairs, root_warnings root rows pair ++ warnings)

pub resolve_roots :
    ℕ → List (String × List SnapshotRecord) → Report (List SnapshotPair × List ReportWarning)
resolve_roots since [] = returned ([], [])
resolve_roots since ((root, rows) ∷ groups) =
    add_root root rows (resolve_root since root rows) (resolve_roots since groups)

-- the key of `_dedupe_warnings`: the code and the path
abbrev code_of : ReportWarning → ℕ × String
code_of (running_snapshot_excluded root id) = (0, root)
code_of (failed_snapshot_excluded root id) = (1, root)
code_of (invalid_timestamp root id) = (2, root)
code_of (insufficient_same_root_snapshots root) = (3, root)
code_of (baseline_before_since_unavailable root cutoff id) = (4, root)
code_of (partial_snapshot root) = (5, root)

abbrev same_key : ReportWarning → ReportWarning → Bool
same_key a b = (code_of a).0 == (code_of b).0 && string_eq.beq (code_of a).1 (code_of b).1

-- `_dedupe_warnings`, with those seen
pub dedupe_warnings : List ReportWarning → List ReportWarning → List ReportWarning
dedupe_warnings seen [] = []
dedupe_warnings seen (w ∷ ws) =
    let known = any (same_key w) seen in
    let rest = dedupe_warnings (if known then seen else w ∷ seen) ws in
    if known then rest else w ∷ rest

abbrev finish_pairs :
    Report (List SnapshotPair × List ReportWarning)
    → Report (List SnapshotPair × List ReportWarning)
finish_pairs (raised e) = raised e
finish_pairs (returned ([], warnings)) = raised no_snapshot_pairs
finish_pairs (returned (pair ∷ pairs, warnings)) =
    returned (pair ∷ pairs, dedupe_warnings [] warnings)

pub resolve_snapshot_pairs :
    ℕ → List SnapshotRecord → Report (List SnapshotPair × List ReportWarning)
resolve_snapshot_pairs since rows = finish_pairs (resolve_roots since (group_rows [] rows))
