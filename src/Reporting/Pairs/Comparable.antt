-- ===== src/Reporting/Pairs/Comparable.antt =====
-- Which two snapshots can be compared by their ids.
use watchdirs.Prelude.{
  ℕ, ◌≡◌, ◌≢◌, ◌↔◌, refl, true, false, some, List, arith, ==_iff, Option-cases, inl, inr,
}
use watchdirs.Prelude.Dict.{string_eq}
use watchdirs.Model.{SnapshotRecord}
use watchdirs.Model.Time.{DateTime}
use watchdirs.Reporting.Pairs.{
  returned, SnapshotPair, snapshot_record_from_row, parse_finished_at_utc, is_unusable, before,
  compare_loaded, load_snapshot_pair, row_of, resolve_snapshot_pair_by_ids, snapshot_pair_warnings,
}

-- Two rows of one root, usable both, of which the first finished first.
pub record IsComparable (baseline current : SnapshotRecord) : Type 0 where
  pub same_root : string_eq.beq baseline.root_path current.root_path ≡ true
  pub baseline_usable : is_unusable baseline.status ≡ false
  pub current_usable : is_unusable current.status ≡ false
  pub finished : DateTime
  pub later : DateTime
  pub baseline_finished : parse_finished_at_utc baseline.finished_at ≡ some finished
  pub current_finished : parse_finished_at_utc current.finished_at ≡ some later
  pub order : before finished baseline.id later current.id ≡ true

abbrev pair_of : SnapshotRecord → SnapshotRecord → SnapshotPair
pair_of b c = record {
  root_path = b.root_path;
  baseline = b;
  current = c;
  warnings = snapshot_pair_warnings b c;
}

compare_loaded-returned :
    (b c : SnapshotRecord) → IsComparable b c → compare_loaded b c ≡ returned (pair_of b c)
unfolding compare_loaded
compare_loaded-returned b c h =
    rw
      (
        h.same_root, h.baseline_usable, h.current_usable, h.baseline_finished, h.current_finished,
        h.order,
      )
      refl

compare_loaded-IsComparable :
    (b c : SnapshotRecord) (p : SnapshotPair)
    → compare_loaded b c ≡ returned p
    → IsComparable b c × (p ≡ pair_of b c)
unfolding compare_loaded
compare_loaded-IsComparable b c p h = elim (Option-cases (parse_finished_at_utc b.finished_at)) [
  | inl none_b ↦ absurd (ground (arith, none_b))
  | inr (t, some_b) ↦ elim (Option-cases (parse_finished_at_utc c.finished_at)) [
    | inl none_c ↦ absurd (ground (arith, some_b, none_c))
    | inr (u, some_c) ↦ (
      record {
        same_root = ground (arith, some_b, some_c);
        baseline_usable = ground (arith, some_b, some_c);
        current_usable = ground (arith, some_b, some_c);
        finished = t;
        later = u;
        baseline_finished = some_b;
        current_finished = some_c;
        order = ground (arith, some_b, some_c);
      },
      ground (arith, some_b, some_c),
    )
  ]
]

-- What the resolution needs of the table.
pub record AreComparable (snapshots : List SnapshotRecord) (b c : ℕ) (p : SnapshotPair)
    : Type 0 where
  pub distinct : b ≢ c
  pub baseline_row : SnapshotRecord
  pub current_row : SnapshotRecord
  pub baseline_found : row_of b snapshots ≡ some baseline_row
  pub current_found : row_of c snapshots ≡ some current_row
  pub comparable :
      IsComparable (snapshot_record_from_row baseline_row) (snapshot_record_from_row current_row)
  pub pair :
      p ≡ pair_of (snapshot_record_from_row baseline_row) (snapshot_record_from_row current_row)

-- Two ids resolve to a pair exactly when they differ, both are in the table, and their rows, read
-- with the status that the program gives them, are of one root, neither running nor failed, and
-- finished with an offset, the baseline before the current one; the pair then holds these two rows,
-- and its warnings tell whether one of them is partial.
pub resolve_snapshot_pair_by_ids_iff :
    (snapshots : List SnapshotRecord) (b c : ℕ) (p : SnapshotPair)
    → (resolve_snapshot_pair_by_ids snapshots b c ≡ returned p) ↔ AreComparable snapshots b c p
unfolding resolve_snapshot_pair_by_ids load_snapshot_pair
resolve_snapshot_pair_by_ids_iff snapshots b c p = (
  λ h. elim (Option-cases (row_of b snapshots)) [
    | inl none_b ↦ elim (Option-cases (row_of c snapshots)) [
      | inl none_c ↦ absurd (ground (arith, none_b, none_c))
      | inr (y, some_c) ↦ absurd (ground (arith, none_b, some_c))
    ]
    | inr (x, some_b) ↦ elim (Option-cases (row_of c snapshots)) [
      | inl none_c ↦ absurd (ground (arith, some_b, none_c))
      | inr (y, some_c) ↦
          let (comparable, pair) =
            compare_loaded-IsComparable (snapshot_record_from_row x) (snapshot_record_from_row y) p
              (ground (arith, some_b, some_c)) in
          record {
            distinct = λ e. ground (arith, ==_iff b c);
            baseline_row = x;
            current_row = y;
            baseline_found = some_b;
            current_found = some_c;
            comparable = comparable;
            pair = pair;
          }
    ]
  ],
  λ h.
      let done =
        compare_loaded-returned (snapshot_record_from_row h.baseline_row)
          (snapshot_record_from_row h.current_row) h.comparable in
      ground (arith, h.baseline_found, h.current_found, done, ==_iff b c, h.distinct, h.pair),
)
