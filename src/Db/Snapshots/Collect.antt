-- ===== src/Db/Snapshots/Collect.antt =====
-- Finishing a snapshot: a complete one becomes history, any other stays diagnostic rows.
use watchdirs.Prelude.{
  ℕ, ◌≡◌, ◌≢◌, refl, Bool, not, some, List, [], ◌∷◌, arith, ◌==◌, find?, filter, length,
}
use watchdirs.Model.{SnapshotRecord, SnapshotStatus, snapshot_status_from_storage}
use watchdirs.Model.Time.{StoredTime}
use watchdirs.Db.Tables.{Diagnostic, Database, ok}
use watchdirs.Db.Promote.{current_rows, promote_complete_snapshot}
use watchdirs.Db.Promote.History.{IsHistory, Promoted, promote_intervals-Promoted}
use watchdirs.Db.Snapshots.{
  FinalizeOptions, update_snapshot, promote_if_complete, finalize_snapshot,
}

abbrev has_id : ℕ → SnapshotRecord → Bool
has_id snapshot s = s.id == snapshot

abbrev of_snapshot : ℕ → Diagnostic → Bool
of_snapshot snapshot d = d.snapshot_id == snapshot

-- the row that the update leaves
abbrev pub finished : StoredTime → FinalizeOptions → SnapshotRecord → SnapshotRecord
finished now options s = record s {
  finished_at = some now;
  status = options.status;
  notes = options.notes;
  error = options.error;
}

module _ (snapshot : ℕ) (now : StoredTime) (options : FinalizeOptions) where
  find?-update_snapshot :
      (rows : List SnapshotRecord) (s : SnapshotRecord)
      → find? (has_id snapshot) rows ≡ some s
      → find? (has_id snapshot) (update_snapshot snapshot now options rows)
        ≡ some (finished now options s)
  unfolding update_snapshot
  find?-update_snapshot [] s h = cc
  find?-update_snapshot (r ∷ rows) s h = ground (arith, find?-update_snapshot rows s)

  find?-update_snapshot_ne :
      (id : ℕ) (rows : List SnapshotRecord)
      → id ≢ snapshot
      → find? (has_id id) (update_snapshot snapshot now options rows) ≡ find? (has_id id) rows
  unfolding update_snapshot
  find?-update_snapshot_ne id [] h = refl
  find?-update_snapshot_ne id (r ∷ rows) h = ground (arith, find?-update_snapshot_ne id rows)

  length-update_snapshot :
      (rows : List SnapshotRecord)
      → length (update_snapshot snapshot now options rows) ≡ length rows
  unfolding update_snapshot
  length-update_snapshot [] = refl
  length-update_snapshot (r ∷ rows) = omega (arith, length-update_snapshot rows)

filter-of_snapshot_self :
    (snapshot : ℕ) (rows : List Diagnostic)
    → filter (of_snapshot snapshot) (filter (λ d. not (of_snapshot snapshot d)) rows) ≡ []
filter-of_snapshot_self snapshot [] = refl
filter-of_snapshot_self snapshot (d ∷ rows) = ground (arith, filter-of_snapshot_self snapshot rows)

filter-of_snapshot_ne :
    (snapshot id : ℕ) (rows : List Diagnostic)
    → id ≢ snapshot
    → filter (of_snapshot id) (filter (λ d. not (of_snapshot snapshot d)) rows)
      ≡ filter (of_snapshot id) rows
filter-of_snapshot_ne snapshot id [] h = refl
filter-of_snapshot_ne snapshot id (d ∷ rows) h =
    ground (arith, filter-of_snapshot_ne snapshot id rows)

-- The outcome of finishing a complete snapshot.
pub record Completed (snapshot : ℕ) (now : StoredTime) (options : FinalizeOptions)
    (s : SnapshotRecord) (before after : Database) : Type 0 where
  -- its rows are the newest state of its root, and no earlier answer changes
  pub promoted :
      Promoted snapshot s.root_path
        (current_rows snapshot before.diagnostics)
        before.intervals
        after.intervals
  -- its diagnostic rows are gone, those of other snapshots stay
  pub moved : filter (of_snapshot snapshot) after.diagnostics ≡ []
  pub others :
      (id : ℕ)
      → id ≢ snapshot
      → filter (of_snapshot id) after.diagnostics ≡ filter (of_snapshot id) before.diagnostics
  -- the snapshot's row is finished, those of other snapshots stay
  pub row : find? (has_id snapshot) after.snapshots ≡ some (finished now options s)
  pub other_rows :
      (id : ℕ)
      → id ≢ snapshot
      → find? (has_id id) after.snapshots ≡ find? (has_id id) before.snapshots

-- The outcome of finishing any other snapshot.
pub record LeftDiagnostic (snapshot : ℕ) (now : StoredTime) (options : FinalizeOptions)
    (s : SnapshotRecord) (before after : Database) : Type 0 where
  -- history, diagnostic rows and paths stay
  pub intervals : after.intervals ≡ before.intervals
  pub diagnostics : after.diagnostics ≡ before.diagnostics
  pub paths : after.paths ≡ before.paths
  -- the snapshot's row is finished, those of other snapshots stay, and none is added
  pub row : find? (has_id snapshot) after.snapshots ≡ some (finished now options s)
  pub other_rows :
      (id : ℕ)
      → id ≢ snapshot
      → find? (has_id id) after.snapshots ≡ find? (has_id id) before.snapshots
  pub number : length after.snapshots ≡ length before.snapshots

module _ (snapshot : ℕ) (now : StoredTime) (options : FinalizeOptions) (s : SnapshotRecord)
    (db : Database) where
  -- Finishing a stored snapshot as COMPLETE succeeds on a well-formed history: from the snapshot
  -- on, each path of its root has the row that the scan stored, once, or nothing; every query about
  -- an earlier snapshot or another root returns what it did; the diagnostic rows of the snapshot
  -- are gone and only they; only the snapshot's own row changes.
  pub finalize_snapshot-Completed :
      options.status ≡ SnapshotStatus.complete
      → find? (has_id snapshot) db.snapshots ≡ some s
      → IsHistory snapshot s.root_path db.intervals
      → (out : Database) × (finalize_snapshot snapshot now options db
          ≡ ok (finished now options s, out))
        × Completed snapshot now options s db out
  unfolding finalize_snapshot promote_if_complete promote_complete_snapshot
      snapshot_status_from_storage
  finalize_snapshot-Completed complete found history =
      let (intervals, promotes, done) =
        promote_intervals-Promoted snapshot s.root_path (current_rows snapshot db.diagnostics)
          db.intervals history in
      let out : Database = record db {
        snapshots = update_snapshot snapshot now options db.snapshots;
        intervals = intervals;
        diagnostics = filter (λ d. not (of_snapshot snapshot d)) db.diagnostics;
      } in
      (
        out,
        ground (arith, find?-update_snapshot snapshot now options db.snapshots s found),
        record {
          promoted = done;
          moved = filter-of_snapshot_self snapshot db.diagnostics;
          others = λ id ne. filter-of_snapshot_ne snapshot id db.diagnostics ne;
          row = find?-update_snapshot snapshot now options db.snapshots s found;
          other_rows = λ id ne. find?-update_snapshot_ne snapshot now options id db.snapshots ne;
        },
      )

  -- Finishing a stored snapshot with any other status succeeds and returns its row, finished with
  -- the given status. No version, no diagnostic row and no path changes, and of the snapshots only
  -- the row of this one.
  pub finalize_snapshot_incomplete :
      options.status ≢ SnapshotStatus.complete
      → find? (has_id snapshot) db.snapshots ≡ some s
      → (out : Database) × (finalize_snapshot snapshot now options db
          ≡ ok (finished now options s, out))
        × LeftDiagnostic snapshot now options s db out
  unfolding finalize_snapshot promote_if_complete snapshot_status_from_storage
  finalize_snapshot_incomplete other found = (
    record db { snapshots = update_snapshot snapshot now options db.snapshots },
    ground (arith, find?-update_snapshot snapshot now options db.snapshots s found),
    record {
      intervals = refl;
      diagnostics = refl;
      paths = refl;
      row = find?-update_snapshot snapshot now options db.snapshots s found;
      other_rows = λ id ne. find?-update_snapshot_ne snapshot now options id db.snapshots ne;
      number = length-update_snapshot snapshot now options db.snapshots;
    },
  )
