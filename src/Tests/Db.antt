-- ===== src/Tests/Db.antt =====
-- The theorems about db/migrations.py at a small database.
use watchdirs.Prelude.{ℕ, ◌≡◌, refl, true, false, Option, none, some, List, [], ◌∷◌, map, arith}
use watchdirs.Prelude.Bytes.{Bytes}
use watchdirs.Prelude.Dict.{lookup}
use watchdirs.Model.{SnapshotRecord, SnapshotStatus, DirectoryAggregate}
use watchdirs.Model.Time.{StoredTime}
use watchdirs.Db.Tables.{StateColumns, Interval, Diagnostic, Database, ok}
use watchdirs.Db.Paths.{Paths, path_of, directory_rows_values}
use watchdirs.Db.Paths.RoundTrip.{IsReady, read_row, read-directory_rows_values}
use watchdirs.Db.Promote.{promote_intervals}
use watchdirs.Db.Promote.History.{IsHistory, Promoted, promote_intervals-Promoted}
use watchdirs.Db.Snapshots.{FinalizeOptions, finalize_snapshot}
use watchdirs.Db.Snapshots.Collect.{
  Completed, LeftDiagnostic, finished, finalize_snapshot-Completed, finalize_snapshot_incomplete,
}

abbrev state_of : ℕ → StateColumns
state_of n = record {
  parent_id = none;
  depth = 0;
  apparent_bytes = n;
  disk_bytes = n;
  file_count = 1;
  dir_count = 0;
  error = none;
  hardlink_file_count = 0;
  hardlink_duplicate_count = 0;
  hardlink_duplicate_disk_bytes = 0;
  hardlink_first_seen_disk_bytes = 0;
  collapsed = false;
  collapse_reason = none;
  collapsed_dirs = none;
  top_child_id = none;
  top_child_disk_bytes = none;
}

abbrev version_of : ℕ → Option ℕ → ℕ → Interval
version_of p end n = record {
  root_path = "/";
  path_id = p;
  valid_from = 1;
  valid_to = end;
  state = state_of n;
}

-- path 1 changes, path 2 vanishes, path 3 is new
abbrev history : List Interval
history = version_of 1 none 10 ∷ version_of 2 none 20 ∷ []

abbrev rows : List (ℕ × StateColumns)
rows = (1, state_of 11) ∷ (3, state_of 30) ∷ []

history-IsHistory : IsHistory 2 "/" history
history-IsHistory = record { settles = λ q. ground arith; single = λ q. ground arith }

promote_intervals_example :
    (out : List Interval) × (promote_intervals 2 "/" rows history ≡ ok out)
    × Promoted 2 "/" rows history out
promote_intervals_example = promote_intervals-Promoted 2 "/" rows history history-IsHistory

abbrev snapshot_of : ℕ → SnapshotRecord
snapshot_of id = record {
  id = id;
  started_at = StoredTime.unparseable "t";
  finished_at = none;
  root_path = "/";
  status = SnapshotStatus.running;
  notes = none;
  error = none;
}

abbrev diagnostic : ℕ → ℕ → ℕ → Diagnostic
diagnostic snapshot p n = record { snapshot_id = snapshot; path_id = p; state = state_of n }

abbrev two_snapshots : Database
two_snapshots = record {
  snapshots = snapshot_of 1 ∷ snapshot_of 2 ∷ [];
  paths = [];
  intervals = history;
  diagnostics = diagnostic 2 1 11 ∷ diagnostic 1 1 5 ∷ diagnostic 2 3 30 ∷ [];
}

abbrev options : SnapshotStatus → FinalizeOptions
options status = record { status = status; notes = none; error = none }

abbrev end_time : StoredTime
end_time = StoredTime.utc (record { year = 2024; month = 2; day = 29; micros = 5 })

finalize_snapshot_example :
    (out : Database) × (finalize_snapshot 2 end_time (options SnapshotStatus.complete) two_snapshots
      ≡ ok (finished end_time (options SnapshotStatus.complete) (snapshot_of 2), out))
    × Completed 2 end_time (options SnapshotStatus.complete) (snapshot_of 2) two_snapshots out
finalize_snapshot_example =
    finalize_snapshot-Completed 2 end_time (options SnapshotStatus.complete) (snapshot_of 2)
      two_snapshots refl refl history-IsHistory

finalize_partial_example :
    (out : Database) × (finalize_snapshot 2 end_time (options SnapshotStatus.partial) two_snapshots
      ≡ ok (finished end_time (options SnapshotStatus.partial) (snapshot_of 2), out))
    × LeftDiagnostic 2 end_time (options SnapshotStatus.partial) (snapshot_of 2) two_snapshots out
finalize_partial_example =
    finalize_snapshot_incomplete 2 end_time (options SnapshotStatus.partial) (snapshot_of 2)
      two_snapshots (λ e. ground arith) refl

abbrev row_of : Bytes → Option Bytes → DirectoryAggregate
row_of path parent = record {
  snapshot_id = 2;
  path = path;
  parent_path = parent;
  depth = 0;
  apparent_bytes = 5;
  disk_bytes = 8;
  file_count = 1;
  dir_count = 1;
  error = none;
  hardlink_file_count = 0;
  hardlink_duplicate_count = 0;
  hardlink_duplicate_disk_bytes = 0;
  hardlink_first_seen_disk_bytes = 0;
  collapsed = true;
  collapse_reason = none;
  collapsed_dirs = some 1;
  top_child_path = some (0x2f ∷ 0x62 ∷ []);
  top_child_disk_bytes = some 4;
}

-- "/" and "/a", with "/a" known already
abbrev two_rows : List DirectoryAggregate
two_rows = row_of (0x2f ∷ 0x61 ∷ []) (some (0x2f ∷ [])) ∷ row_of (0x2f ∷ []) none ∷ []

abbrev known : Paths
known = record { cache = []; rows = record { id = 4; path = 0x2f ∷ 0x61 ∷ [] } ∷ [] }

known-IsReady : IsReady known
unfolding path_of lookup
known-IsReady = record {
  consistent = record { cached = λ path id h. ground arith };
  unique = (refl, tt);
}

directory_rows_values_example :
    map
      (read_row (directory_rows_values known two_rows).1.rows)
      (directory_rows_values known two_rows).0
    ≡ map some two_rows
directory_rows_values_example = read-directory_rows_values known two_rows known-IsReady
