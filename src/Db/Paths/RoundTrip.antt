-- ===== src/Db/Paths/RoundTrip.antt =====
-- Paths written through the dictionary are read back unchanged.
use watchdirs.Prelude.{
  ℕ, ◌≡◌, refl, Option, none, some, List, [], ◌∷◌, map, arith, Option-cases, inl, inr,
}
use watchdirs.Prelude.Bytes.{Bytes}
use watchdirs.Prelude.Dict.{bytes_eq_instance}
use watchdirs.Model.{DirectoryAggregate}
use watchdirs.Db.Tables.{PathRow, Diagnostic}
use watchdirs.Db.Paths.{
  path_of, Paths, resolve_path_id, resolve_optional, directory_row_values, directory_rows_values,
}
use watchdirs.Db.Paths.Resolve.{IsConsistent, UniqueIds, resolve_path_id-Resolved}

-- `LEFT JOIN paths`: a missing id reads as a missing path, a dangling one fails.
abbrev pub read_optional : List PathRow → Option ℕ → Option (Option Bytes)
read_optional rows none = some none
read_optional rows (some id) = elim (path_of id rows) [ none ↦ none | some path ↦ some (some path) ]

-- the aggregate that a query reads back from a row and the path table
pub read_row : List PathRow → Diagnostic → Option DirectoryAggregate
read_row rows d = elim (path_of d.path_id rows) [
  | none ↦ none
  | some path ↦ elim (read_optional rows d.state.parent_id) [
    | none ↦ none
    | some parent ↦ elim (read_optional rows d.state.top_child_id) [
      | none ↦ none
      | some top_child ↦ some (record {
        snapshot_id = d.snapshot_id;
        path = path;
        parent_path = parent;
        depth = d.state.depth;
        apparent_bytes = d.state.apparent_bytes;
        disk_bytes = d.state.disk_bytes;
        file_count = d.state.file_count;
        dir_count = d.state.dir_count;
        error = d.state.error;
        hardlink_file_count = d.state.hardlink_file_count;
        hardlink_duplicate_count = d.state.hardlink_duplicate_count;
        hardlink_duplicate_disk_bytes = d.state.hardlink_duplicate_disk_bytes;
        hardlink_first_seen_disk_bytes = d.state.hardlink_first_seen_disk_bytes;
        collapsed = d.state.collapsed;
        collapse_reason = d.state.collapse_reason;
        collapsed_dirs = d.state.collapsed_dirs;
        top_child_path = top_child;
        top_child_disk_bytes = d.state.top_child_disk_bytes;
      })
    ]
  ]
]

-- one table says all that another says
pub record Extends (old new : List PathRow) : Type 0 where
  pub keeps : (j : ℕ) (q : Bytes) → path_of j old ≡ some q → path_of j new ≡ some q

Extends-trans : {a b c : List PathRow} → Extends a b → Extends b c → Extends a c
Extends-trans f g = record { keeps = λ j q h. g.keeps j q (f.keeps j q h) }

read_optional-keeps :
    {old new : List PathRow} (id : Option ℕ) (path : Option Bytes)
    → Extends old new
    → read_optional old id ≡ some path
    → read_optional new id ≡ some path
read_optional-keeps none path f h = h
read_optional-keeps {old} {new} (some id) path f h = elim (Option-cases (path_of id old)) [
  | inl e ↦ absurd (ground arith)
  | inr (q, e) ↦ ground (arith, f.keeps id q e)
]

-- a table that the dictionary may work on
pub record IsReady (t : Paths) : Type 0 where
  pub consistent : IsConsistent t
  pub unique : UniqueIds t.rows

record Stored (t : Paths) (path : Option Bytes) (id : Option ℕ) (t' : Paths) : Type 0 where
  reads : read_optional t'.rows id ≡ some path
  extends : Extends t.rows t'.rows
  ready : IsReady t'

resolve_optional-Stored :
    (t : Paths) (path : Option Bytes)
    → IsReady t
    → Stored t path (resolve_optional t path).0 (resolve_optional t path).1
unfolding resolve_optional
resolve_optional-Stored t none r = record {
  reads = refl;
  extends = record { keeps = λ j q h. h };
  ready = r;
}
resolve_optional-Stored t (some path) r =
    let done = resolve_path_id-Resolved t path r.consistent r.unique in
    record {
      reads = ground (arith, done.found);
      extends = record { keeps = done.kept };
      ready = record { consistent = done.consistent; unique = done.unique };
    }

pub record RowStored (t : Paths) (row : DirectoryAggregate) (d : Diagnostic) (t' : Paths)
    : Type 0 where
  pub reads : (rows : List PathRow) → Extends t'.rows rows → read_row rows d ≡ some row
  pub extends : Extends t.rows t'.rows
  pub ready : IsReady t'

directory_row_values-RowStored :
    (t : Paths) (row : DirectoryAggregate)
    → IsReady t
    → RowStored t row (directory_row_values t row).0 (directory_row_values t row).1
unfolding directory_row_values read_row
directory_row_values-RowStored t row r =
    let t1 = (resolve_path_id t row.path).1 in
    let t2 = (resolve_optional t1 row.parent_path).1 in
    let one = resolve_path_id-Resolved t row.path r.consistent r.unique in
    let two =
      resolve_optional-Stored t1 row.parent_path
        (record { consistent = one.consistent; unique = one.unique }) in
    let three = resolve_optional-Stored t2 row.top_child_path two.ready in
    record {
      reads = λ rows e.
          let found = e.keeps _ _ (three.extends.keeps _ _ (two.extends.keeps _ _ one.found)) in
          let parent = read_optional-keeps _ _ (Extends-trans three.extends e) two.reads in
          let top_child = read_optional-keeps _ _ e three.reads in
          rw (read_row, found, parent, top_child);
      extends = record {
        keeps = λ j q h. three.extends.keeps j q (two.extends.keeps j q (one.kept j q h));
      };
      ready = three.ready;
    }

rows_values-lem :
    (t : Paths) (rows : List DirectoryAggregate)
    → IsReady t
    → (Extends t.rows (directory_rows_values t rows).1.rows)
      × ((later : List PathRow)
          → Extends (directory_rows_values t rows).1.rows later
          → map (read_row later) (directory_rows_values t rows).0 ≡ map some rows)
unfolding directory_rows_values
rows_values-lem t [] r = (record { keeps = λ j q h. h }, λ later e. refl)
rows_values-lem t (row ∷ rows) r =
    let first = directory_row_values-RowStored t row r in
    let rest = rows_values-lem (directory_row_values t row).1 rows first.ready in
    (
      Extends-trans first.extends rest.0,
      λ later e. rw (first.reads later (Extends-trans rest.0 e), rest.1 later e),
    )

-- Rows that are written through the path dictionary are read back unchanged by a join with the
-- path table that the writes leave, for any rows, any table with unique ids and any cache that agrees
-- with the table.
pub read-directory_rows_values :
    (t : Paths) (rows : List DirectoryAggregate)
    → IsReady t
    → map (read_row (directory_rows_values t rows).1.rows) (directory_rows_values t rows).0
      ≡ map some rows
read-directory_rows_values t rows r = (rows_values-lem t rows r).1 _ (record { keeps = λ j q h. h })
