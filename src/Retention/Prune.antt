-- ===== src/Retention/Prune.antt =====
-- `prune_snapshots` of db/retention.py, with the statements that it runs. A committed batch is one
-- snapshot (`PRUNE_SNAPSHOT_DELETE_BATCH_SIZE`); transactions that fail are rolled back by sqlite.
pub mod Bounds
pub mod Normalize
pub mod Outcome
use watchdirs.Prelude.{
  ℕ, ◌+◌, ◌-◌, String, Bool, true, false, ◌&&◌, ◌||◌, not, Option, none, some, List, [], ◌∷◌, ◌++◌,
  map, leb, ltb, ◌==◌, if◌then◌else◌, filter, any, length,
}
use watchdirs.Prelude.Dict.{string_eq}
use watchdirs.Model.{SnapshotRecord, SnapshotStatus}
use watchdirs.Model.Time.{DateTime}
use watchdirs.Db.Tables.{PathRow, Interval, Diagnostic, Database, covers}
use watchdirs.Db.Promote.{conflicts}
use watchdirs.Retention.Policy.{RetentionPolicy, Result, ok, raise, null_bound, not_unique, ◌>>=◌}
use watchdirs.Retention.Select.{select_retained_snapshot_ids}

abbrev is_stored_complete : SnapshotStatus → Bool
is_stored_complete SnapshotStatus.complete = true
is_stored_complete _ = false

-- `id IN (...) AND status = 'complete' AND root_path = interval.root_path`
pub retained_complete : List ℕ → String → List SnapshotRecord → List ℕ
retained_complete retained root [] = []
retained_complete retained root (s ∷ snapshots) =
    if any (λ r. r == s.id) retained
      && is_stored_complete s.status
      && string_eq.beq s.root_path root
    then s.id ∷ retained_complete retained root snapshots
    else retained_complete retained root snapshots

-- `SELECT MIN(id) ... WHERE p`
abbrev pub min_where : (ℕ → Bool) → List ℕ → Option ℕ
min_where p [] = none
min_where p (x ∷ xs) = elim (min_where p xs) [
  | none ↦ if p x then some x else none
  | some m ↦ if p x && ltb x m then some x else some m
]

abbrev pub normalized_end : Option ℕ → List ℕ → Option ℕ
normalized_end none ids = none
normalized_end (some t) ids = min_where (leb t) ids

module _ (retained : List ℕ) (snapshots : List SnapshotRecord) where
  -- the DELETE
  pub delete_uncovered : List Interval → List Interval
  delete_uncovered =
      filter (λ i. any (λ s. covers s i) (retained_complete retained i.root_path snapshots))

  -- the row that the UPDATE leaves; both of its expressions read the old row
  abbrev pub updated : ℕ → Interval → Interval
  updated start i = record i {
    valid_from = start;
    valid_to = normalized_end i.valid_to (retained_complete retained i.root_path snapshots);
  }

  -- The UPDATE, row by row, behind the rows that are updated already: `valid_from` may not become
  -- NULL, and `UNIQUE(root_path, path_id, valid_from_snapshot_id)` is checked at each row against
  -- the table as it then is.
  pub update_bounds : List Interval → List Interval → Result (List Interval)
  update_bounds done [] = ok []
  update_bounds done (i ∷ rows) =
      elim (min_where (λ s. covers s i) (retained_complete retained i.root_path snapshots)) [
        | none ↦ raise null_bound
        | some start ↦
            let rest = update_bounds (done ++ (updated start i ∷ [])) rows in
            if any (conflicts (updated start i)) (done ++ rows)
            then raise not_unique
            else rest >>= λ out. ok (updated start i ∷ out)
      ]

  pub normalize_interval_boundaries : List Interval → Result (List Interval)
  normalize_interval_boundaries rows = elim retained [
    | [] ↦ ok []
    | r ∷ rs ↦ update_bounds [] (delete_uncovered rows)
  ]

-- `DELETE FROM snapshots WHERE id IN (...)`; the foreign key of the diagnostic rows cascades.
pub delete_snapshot_batch : List ℕ → Database → Database
delete_snapshot_batch ids db = record db {
  snapshots = filter (λ s. not (any (λ i. i == s.id) ids)) db.snapshots;
  diagnostics = filter (λ d. not (any (λ i. i == d.snapshot_id) ids)) db.diagnostics;
}

abbrev is_id : ℕ → Option ℕ → Bool
is_id id none = false
is_id id (some j) = j == id

abbrev pub is_referenced : Database → PathRow → Bool
is_referenced db p =
    any
      (λ i. i.path_id == p.id || (is_id p.id i.state.parent_id || is_id p.id i.state.top_child_id))
      db.intervals
    || any
        (λ d.
          d.path_id == p.id || (is_id p.id d.state.parent_id || is_id p.id d.state.top_child_id))
        db.diagnostics

-- `_delete_orphan_paths`: the rows left and how many went
pub delete_orphan_paths : Database → Database × ℕ
delete_orphan_paths db =
    let kept = filter (is_referenced db) db.paths in
    (record db { paths = kept }, length db.paths - length kept)

-- `for start in range(0, len(deleted_snapshot_ids), 1)`
pub delete_batches : List ℕ → Database → Database
delete_batches [] db = db
delete_batches (id ∷ ids) db = delete_batches ids (delete_snapshot_batch (id ∷ []) db)

-- `_prune_with_committed_batches`
pub prune_with_committed_batches : List ℕ → List ℕ → Database → Result (Database × ℕ)
prune_with_committed_batches deleted retained db =
    normalize_interval_boundaries retained db.snapshots db.intervals >>= λ intervals.
    ok (delete_orphan_paths (delete_batches deleted (record db { intervals = intervals })))

-- the branch without commits: one transaction
pub prune_in_one_transaction : List ℕ → List ℕ → Database → Result (Database × ℕ)
prune_in_one_transaction deleted retained db =
    normalize_interval_boundaries retained db.snapshots db.intervals >>= λ intervals.
    let normalized : Database = record db { intervals = intervals } in
    ok (
      delete_orphan_paths
        (elim deleted [ [] ↦ normalized | id ∷ ids ↦ delete_snapshot_batch (id ∷ ids) normalized ]))

pub record PruneResult : Type 0 where
  pub deleted_snapshot_ids : List ℕ
  pub deleted_snapshot_count : ℕ
  pub retained_snapshot_count : ℕ
  pub deleted_path_count : ℕ
  pub snapshots_before : ℕ
  pub snapshots_after : ℕ

-- `[id for id in snapshot_ids if id not in retained]`
pub deleted_ids : List ℕ → List SnapshotRecord → List ℕ
deleted_ids retained [] = []
deleted_ids retained (s ∷ snapshots) =
    if any (λ r. r == s.id) retained
    then deleted_ids retained snapshots
    else s.id ∷ deleted_ids retained snapshots

pub prune_snapshots :
    (DateTime → DateTime)
    → RetentionPolicy
    → DateTime
    → Bool
    → Database
    → Result (PruneResult × Database)
prune_snapshots local_time policy now commit db =
    select_retained_snapshot_ids local_time policy now db.snapshots >>= λ retained.
    let deleted = deleted_ids retained db.snapshots in
    (if commit
      then prune_with_committed_batches deleted retained db
      else prune_in_one_transaction deleted retained db)
    >>= λ (after, deleted_paths). ok (
      record {
        deleted_snapshot_ids = deleted;
        deleted_snapshot_count = length deleted;
        retained_snapshot_count = length retained;
        deleted_path_count = deleted_paths;
        snapshots_before = length db.snapshots;
        snapshots_after = length db.snapshots - length deleted;
      },
      after,
    )
