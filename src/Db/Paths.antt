-- ===== src/Db/Paths.antt =====
-- The path dictionary of db/migrations.py: `_resolve_path_id` and `_directory_row_values`.
pub mod RoundTrip
pub mod Resolve
use watchdirs.Prelude.{
  ℕ, ◌+◌, ◌≡◌, ◌≤◌, refl, Bool, true, false, Option, none, some, List, [], ◌∷◌, ◌++◌, arith, ◌==◌,
  ==_iff, if◌then◌else◌, max, ap,
}
use watchdirs.Prelude.Bytes.{Bytes, bytes_eq, bytes_eq_iff}
use watchdirs.Prelude.Dict.{lookup, insert, lookup-insert, bytes_eq_instance}
use watchdirs.Model.{DirectoryAggregate}
use watchdirs.Db.Tables.{PathRow, StateColumns, Diagnostic, next_id}

-- `SELECT id FROM paths WHERE path = ?`
pub id_of : Bytes → List PathRow → Option ℕ
id_of path [] = none
id_of path (r ∷ rows) = if bytes_eq r.path path then some r.id else id_of path rows

-- `SELECT path FROM paths WHERE id = ?`, the join that every query makes
unfoldable pub path_of : ℕ → List PathRow → Option Bytes
path_of id [] = none
path_of id (r ∷ rows) = if r.id == id then some r.path else path_of id rows

-- the table, and the cache of one `insert_directory_rows`
pub record Paths : Type 0 where
  pub cache : List (Bytes × ℕ)
  pub rows : List PathRow

pub resolve_path_id : Paths → Bytes → ℕ × Paths
unfolding id_of
resolve_path_id t path = elim (lookup path t.cache) [
  | some cached ↦ (cached, t)
  | none ↦ elim (id_of path t.rows) [
    | some id ↦ (id, record t { cache = insert path id t.cache })
    | none ↦
        let id = next_id (λ (r : PathRow). r.id) t.rows in
        (
          id,
          record {
            cache = insert path id t.cache;
            rows = t.rows ++ record { id = id; path = path } ∷ [];
          },
        )
  ]
]

-- `_resolve_path_id(...) if path is not None else None`
pub resolve_optional : Paths → Option Bytes → Option ℕ × Paths
unfolding resolve_path_id
resolve_optional t none = (none, t)
resolve_optional t (some path) = let (id, t') = resolve_path_id t path in (some id, t')

pub directory_row_values : Paths → DirectoryAggregate → Diagnostic × Paths
unfolding resolve_optional
directory_row_values t row =
    let (path_id, t1) = resolve_path_id t row.path in
    let (parent_id, t2) = resolve_optional t1 row.parent_path in
    let (top_child_id, t3) = resolve_optional t2 row.top_child_path in
    (
      record {
        snapshot_id = row.snapshot_id;
        path_id = path_id;
        state = record {
          parent_id = parent_id;
          depth = row.depth;
          apparent_bytes = row.apparent_bytes;
          disk_bytes = row.disk_bytes;
          file_count = row.file_count;
          dir_count = row.dir_count;
          error = row.error;
          hardlink_file_count = row.hardlink_file_count;
          hardlink_duplicate_count = row.hardlink_duplicate_count;
          hardlink_duplicate_disk_bytes = row.hardlink_duplicate_disk_bytes;
          hardlink_first_seen_disk_bytes = row.hardlink_first_seen_disk_bytes;
          collapsed = row.collapsed;
          collapse_reason = row.collapse_reason;
          collapsed_dirs = row.collapsed_dirs;
          top_child_id = top_child_id;
          top_child_disk_bytes = row.top_child_disk_bytes;
        };
      },
      t3,
    )

-- the values of a batch, in order, through one cache
pub directory_rows_values : Paths → List DirectoryAggregate → List Diagnostic × Paths
directory_rows_values t [] = ([], t)
directory_rows_values t (row ∷ rows) =
    let (d, t') = directory_row_values t row in
    let (ds, t'') = directory_rows_values t' rows in (d ∷ ds, t'')
