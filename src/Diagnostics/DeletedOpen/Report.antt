-- ===== src/Diagnostics/DeletedOpen/Report.antt =====
-- diagnostics/deleted_open.py: what the report says of the rows that were found.
use watchdirs.Prelude.{
  Member, Empty, ℕ, ◌+◌, ◌≡◌, ◌≤◌, ◌<◌, ◌↔◌, true, Option, none, some, List, [], ◌∷◌, ◌++◌, length,
}
use watchdirs.Prelude.Bytes.{Bytes}
use watchdirs.Prelude.Int.{sum_int, ◌+ℤ◌}
use watchdirs.Prelude.Sorting.{IsSorted}
use watchdirs.Diagnostics.Rows.{Relevance, DeletedOpenFile, DeletedOpenDiagnostic}
use watchdirs.Diagnostics.DeletedOpen.{
  classify_disk_pressure_relevance, Resolution, resolved, unmatched, raised, row_before, size_of,
}

-- What the resolver says of a row: it is a mapping or it may take disk space.
abbrev pub relevance_by : Bytes → Relevance → Resolution → Relevance
relevance_by path before (resolved domain) = classify_disk_pressure_relevance path domain
relevance_by path before unmatched = before
relevance_by path before (raised e) = before

abbrev pub expected_relevance : Option (Bytes → Resolution) → DeletedOpenFile → Relevance
expected_relevance none row = row.disk_pressure_relevance
expected_relevance (some r) row = relevance_by row.path row.disk_pressure_relevance (r row.path)

-- the row with its domain is about the same file of the same process
abbrev pub IsResolved : Option (Bytes → Resolution) → DeletedOpenFile → DeletedOpenFile → Type 0
IsResolved r row s =
    (s.pid ≡ row.pid)
    × (s.command ≡ row.command)
    × (s.fd ≡ row.fd)
    × (s.size_bytes ≡ row.size_bytes)
    × (s.path ≡ row.path)
    × (s.source ≡ row.source)
    × (s.disk_pressure_relevance ≡ expected_relevance r row)

abbrev pub AreResolved :
    Option (Bytes → Resolution) → List DeletedOpenFile → List DeletedOpenFile → Type 0
AreResolved r [] [] = Unit
AreResolved r [] (s ∷ ss) = Empty
AreResolved r (row ∷ rows) [] = Empty
AreResolved r (row ∷ rows) (s ∷ ss) = IsResolved r row s × AreResolved r rows ss

-- A report on rows: `hidden` are the relevant ones that the limit leaves out.
pub record IsReport (limit : ℕ) (rows : List DeletedOpenFile) (d : DeletedOpenDiagnostic)
    (hidden : List DeletedOpenFile) : Type 0 where
  -- the shown rows and then the hidden ones, by size, greatest first
  pub descending : IsSorted row_before (d.culprits ++ hidden)
  pub counts : d.totals.culprit_count ≡ length d.culprits + length hidden
  pub shown : (d.totals.shown_count ≡ length d.culprits) × (d.totals.shown_count ≤ limit)
  pub truncated_iff : (d.truncated ≡ true) ↔ (0 < length hidden)
  pub shown_size : d.totals.total_size_bytes ≡ d.totals.shown_size_bytes +ℤ sum_int size_of hidden
  -- the shown and the hidden rows are those rows that are no mapping
  pub culprits_iff :
      (row : DeletedOpenFile)
      → Member row (d.culprits ++ hidden)
        ↔ (Member row rows × (row.disk_pressure_relevance ≡ Relevance.unknown))
  pub all_size :
      d.totals.total_size_bytes +ℤ d.totals.non_disk_mapping_size_bytes ≡ sum_int size_of rows
