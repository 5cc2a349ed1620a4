-- ===== src/Db/Promote/Defs.antt =====
-- `_promote_complete_snapshot` of db/migrations.py: the diagnostic rows of a finished snapshot
-- become interval versions, one only where the state of a path has changed.
use watchdirs.Prelude.{
  ℕ, String, Bool, ◌&&◌, not, none, some, List, [], ◌∷◌, ◌++◌, map, ltb, ◌==◌, if◌then◌else◌,
  filter, any, find?, sorted,
}
use watchdirs.Prelude.Dict.{lookup, of_rows, string_eq, nat_eq}
use watchdirs.Db.Tables.{
  StateColumns, StateColumns-discrete, Interval, Diagnostic, Database, Result, ok, err,
  integrity_error, snapshot_missing, ◌>>=◌, is_open, same_path,
}
use mathlib.Core.Logic.{ite}

-- `UPDATE directory_size_intervals SET valid_to_snapshot_id = ?
--  WHERE root_path = ? AND path_id = ? AND valid_to_snapshot_id IS NULL`
unfoldable pub close_interval : ℕ → String → ℕ → List Interval → List Interval
close_interval snapshot root p [] = []
close_interval snapshot root p (i ∷ rows) =
    (if same_path root p i && is_open i then record i { valid_to = some snapshot } else i)
    ∷ close_interval snapshot root p rows

-- `UNIQUE(root_path, path_id, valid_from_snapshot_id)`
abbrev pub conflicts : Interval → Interval → Bool
conflicts new i = same_path new.root_path new.path_id i && i.valid_from == new.valid_from

unfoldable pub insert_interval : Interval → List Interval → Result (List Interval)
insert_interval new rows =
    if any (conflicts new) rows then err integrity_error else ok (rows ++ new ∷ [])

-- `for path_id in active.keys() - current.keys()`
unfoldable pub close_vanished :
    ℕ → String → List (ℕ × StateColumns) → List (ℕ × StateColumns) → List Interval → List Interval
close_vanished snapshot root current [] rows = rows
close_vanished snapshot root current ((p, state) ∷ active) rows =
    close_vanished snapshot root current active
      (elim (lookup p current) [ none ↦ close_interval snapshot root p rows | some _ ↦ rows ])

abbrev pub version : ℕ → String → ℕ → StateColumns → Interval
version snapshot root p state = record {
  root_path = root;
  path_id = p;
  valid_from = snapshot;
  valid_to = none;
  state = state;
}

-- the body of `for path_id, state in current.items()`
unfoldable pub promote_row :
    ℕ → String → List (ℕ × StateColumns) → ℕ → StateColumns → List Interval → Result (List Interval)
promote_row snapshot root active p state rows = elim (lookup p active) [
  | none ↦ insert_interval (version snapshot root p state) rows
  | some prior ↦
      ite (StateColumns-discrete prior state) (ok rows)
        (insert_interval (version snapshot root p state) (close_interval snapshot root p rows))
]

unfoldable pub promote_rows :
    ℕ
    → String
    → List (ℕ × StateColumns)
    → List (ℕ × StateColumns)
    → List Interval
    → Result (List Interval)
promote_rows snapshot root active [] rows = ok rows
promote_rows snapshot root active ((p, state) ∷ current) rows =
    promote_row snapshot root active p state rows >>= promote_rows snapshot root active current

-- the rows of `SELECT path_id, ... FROM directory_size_intervals WHERE root_path = ?
-- AND valid_from_snapshot_id < ? AND valid_to_snapshot_id IS NULL`
unfoldable pub active_rows : ℕ → String → List Interval → List (ℕ × StateColumns)
active_rows snapshot root [] = []
active_rows snapshot root (i ∷ rows) =
    if string_eq.beq i.root_path root && ltb i.valid_from snapshot && is_open i
    then (i.path_id, i.state) ∷ active_rows snapshot root rows
    else active_rows snapshot root rows

abbrev by_path_id : Diagnostic → Diagnostic → Bool
by_path_id a b = ltb a.path_id b.path_id

-- `SELECT path_id, ... FROM directory_size_diagnostics WHERE snapshot_id = ? ORDER BY path_id`
unfoldable pub current_rows : ℕ → List Diagnostic → List (ℕ × StateColumns)
current_rows snapshot rows =
    map (λ d. (d.path_id, d.state))
      (sorted by_path_id (filter (λ d. d.snapshot_id == snapshot) rows))

unfoldable pub promote_intervals :
    ℕ → String → List (ℕ × StateColumns) → List Interval → Result (List Interval)
promote_intervals snapshot root rows intervals =
    let active = of_rows (active_rows snapshot root intervals) in
    let current = of_rows rows in
    promote_rows snapshot root active current
      (close_vanished snapshot root current active intervals)

unfoldable pub promote_complete_snapshot : ℕ → Database → Result Database
promote_complete_snapshot snapshot db = elim (find? (λ s. s.id == snapshot) db.snapshots) [
  | none ↦ err (snapshot_missing snapshot)
  | some found ↦
      promote_intervals snapshot found.root_path (current_rows snapshot db.diagnostics) db.intervals
      >>= λ intervals. ok (record db {
        intervals = intervals;
        diagnostics = filter (λ d. not (d.snapshot_id == snapshot)) db.diagnostics;
      })
]
