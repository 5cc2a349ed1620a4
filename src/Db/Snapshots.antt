-- ===== src/Db/Snapshots.antt =====
-- The life of a snapshot in db/migrations.py: `create_snapshot`, `insert_directory_rows` and
-- `finalize_snapshot`. The clock is an argument, and commits are left to the caller.
pub mod Collect
use watchdirs.Prelude.{
  ℕ, String, Bool, ◌&&◌, Option, none, some, List, [], ◌∷◌, ◌++◌, ◌==◌, if◌then◌else◌, any, find?,
}
use watchdirs.Model.{
  SnapshotRecord, SnapshotStatus, DirectoryAggregate, snapshot_status_from_storage,
}
use watchdirs.Model.Time.{StoredTime}
use watchdirs.Db.Tables.{
  Diagnostic, Database, Result, ok, err, integrity_error, snapshot_missing, ◌>>=◌, next_id,
}
use watchdirs.Db.Paths.{directory_rows_values}
use watchdirs.Db.Promote.{promote_complete_snapshot}

pub create_snapshot : String → Option String → StoredTime → Database → SnapshotRecord × Database
create_snapshot root_path notes started_at db =
    let record_ : SnapshotRecord = record {
      id = next_id (λ (s : SnapshotRecord). s.id) db.snapshots;
      started_at = started_at;
      finished_at = none;
      root_path = root_path;
      status = SnapshotStatus.running;
      notes = notes;
      error = none;
    } in
    (record_, record db { snapshots = db.snapshots ++ record_ ∷ [] })

-- `UNIQUE(snapshot_id, path_id)`
abbrev pub same_row : Diagnostic → Diagnostic → Bool
same_row new d = d.snapshot_id == new.snapshot_id && d.path_id == new.path_id

-- `executemany`: the rows one after the other
pub insert_diagnostics : List Diagnostic → List Diagnostic → Result (List Diagnostic)
insert_diagnostics table [] = ok table
insert_diagnostics table (new ∷ rows) =
    let rest = insert_diagnostics (table ++ new ∷ []) rows in
    if any (same_row new) table then err integrity_error else rest

-- The batches of `INSERT_BATCH_SIZE` only group the statements: one cache serves them all.
pub insert_directory_rows : List DirectoryAggregate → Database → Result Database
insert_directory_rows rows db =
    let (values, paths) = directory_rows_values (record { cache = []; rows = db.paths }) rows in
    insert_diagnostics db.diagnostics values >>= λ diagnostics.
    ok (record db { diagnostics = diagnostics; paths = paths.rows })

pub record FinalizeOptions : Type 0 where
  pub status : SnapshotStatus
  pub notes : Option String
  pub error : Option String

-- `UPDATE snapshots SET finished_at = ?, status = ?, notes = ?, error = ? WHERE id = ?`
pub update_snapshot : ℕ → StoredTime → FinalizeOptions → List SnapshotRecord → List SnapshotRecord
update_snapshot snapshot now options [] = []
update_snapshot snapshot now options (s ∷ rows) =
    (if s.id == snapshot
      then record s {
        finished_at = some now;
        status = options.status;
        notes = options.notes;
        error = options.error;
      }
      else s)
    ∷ update_snapshot snapshot now options rows

-- `_promote_complete_snapshot` under its test
pub promote_if_complete : ℕ → SnapshotStatus → Database → Result Database
promote_if_complete snapshot SnapshotStatus.complete db = promote_complete_snapshot snapshot db
promote_if_complete snapshot status db = ok db

pub finalize_snapshot :
    ℕ → StoredTime → FinalizeOptions → Database → Result (SnapshotRecord × Database)
finalize_snapshot snapshot now options db =
    promote_if_complete snapshot options.status db >>= λ promoted.
    let rows = update_snapshot snapshot now options promoted.snapshots in
    elim (find? (λ s. s.id == snapshot) rows) [
      | none ↦ err (snapshot_missing snapshot)
      | some s ↦ ok (
        record s { status = snapshot_status_from_storage s.status s.finished_at },
        record promoted { snapshots = rows },
      )
    ]
