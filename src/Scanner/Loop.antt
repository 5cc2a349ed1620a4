-- ===== src/Scanner/Loop.antt =====
-- The rows that the loop of collect/scanner.py makes of its frames, and what a frame that is popped
-- leaves.
use watchdirs.Prelude.{
  ℕ, zero, suc, ◌≤◌, ◌≡◌, refl, ◌∙◌, ◌||◌, Option, none, some, List, [], ◌∷◌, ◌++◌, All, length,
  length-append, take, arith,
}
use watchdirs.Prelude.Bytes.{Bytes}
use watchdirs.Model.{ErrorKind, ScanError, DirectoryAggregate, CollapseReason}
use watchdirs.Scanner.Policy.{is_completeness_kind}
use watchdirs.Scanner.Rows.{Frame, merge_child}
use watchdirs.Scanner.Machine.{ScanSetup, ScanState, initialize_failed}
use watchdirs.Scanner.Steps.{finish_frame, finished_row, kept_rows}
use watchdirs.Scanner.Preserve.{append-IsCounted}
use watchdirs.Scanner.Running.{
  has_failure, IsCounted, IsCountedFrame, IsRooted, Running, Finished, Kept,
}

-- The row of a frame has its place and its counts, collapsed or not.
pub record RowOf (f : Frame) (row : DirectoryAggregate) : Type 0 where
  pub path : row.path ≡ f.path_raw
  pub parent_path : row.parent_path ≡ f.parent_path
  pub depth : row.depth ≡ f.depth
  pub hardlinks : row.hardlink_file_count ≡ f.hardlink_file_count
  pub duplicates : row.hardlink_duplicate_count ≡ f.hardlink_duplicate_count
  pub files : row.file_count ≡ f.file_count
  pub dirs : row.dir_count ≡ f.dir_count

pub finished_row-RowOf :
    (f : Frame) (reason : Option CollapseReason) → RowOf f (finished_row f reason)
unfolding finished_row
finished_row-RowOf f none = record {
  path = refl;
  parent_path = refl;
  depth = refl;
  hardlinks = refl;
  duplicates = refl;
  files = refl;
  dirs = refl;
}
finished_row-RowOf f (some reason) = record {
  path = refl;
  parent_path = refl;
  depth = refl;
  hardlinks = refl;
  duplicates = refl;
  files = refl;
  dirs = refl;
}

take-length-le {ℓ} : {A : Type ℓ} (n : ℕ) (xs : List A) → length (take n xs) ≤ length xs
take-length-le zero xs = omega arith
take-length-le (suc n) [] = omega arith
take-length-le (suc n) (x ∷ xs) = omega (arith, take-length-le n xs)

All-take {ℓ κ} : {A : Type ℓ} (P : A → Type κ) (n : ℕ) (xs : List A) → All P xs → All P (take n xs)
All-take P zero xs h = tt
All-take P (suc n) [] h = tt
All-take P (suc n) (x ∷ xs) h = (h.0, All-take P n xs h.1)

-- Collapsing drops rows, and drops none where there is no reason to collapse.
pub kept_rows-le :
    (f : Frame) (reason : Option CollapseReason) (rows : List DirectoryAggregate)
    → length (kept_rows f reason rows) ≤ length rows
unfolding kept_rows
kept_rows-le f none rows = omega arith
kept_rows-le f (some reason) rows = take-length-le f.row_start rows

pub kept_rows-eq :
    (f : Frame) (reason : Option CollapseReason) (rows : List DirectoryAggregate)
    → reason ≡ none
    → length (kept_rows f reason rows) ≡ length rows
unfolding kept_rows
kept_rows-eq f none rows e = refl
kept_rows-eq f (some reason) rows e = ground arith

pub kept_rows-IsCounted :
    (f : Frame) (reason : Option CollapseReason) (rows : List DirectoryAggregate)
    → All IsCounted rows
    → All IsCounted (kept_rows f reason rows)
unfolding kept_rows
kept_rows-IsCounted f none rows h = h
kept_rows-IsCounted f (some reason) rows h = All-take IsCounted f.row_start rows h

pub row-IsCounted :
    (f : Frame) (row : DirectoryAggregate) → RowOf f row → IsCountedFrame f → IsCounted row
row-IsCounted f row r c = omega (arith, r.hardlinks, r.duplicates, r.files)

merged-IsRooted :
    (root : Bytes) (parent : Frame) (rest : List Frame) (row : DirectoryAggregate)
    (evidence : List (ErrorKind × ℕ))
    → IsRooted root (parent ∷ rest)
    → IsRooted root (merge_child parent row evidence ∷ rest)
unfolding merge_child
merged-IsRooted root parent [] row evidence h = h
merged-IsRooted root parent (g ∷ rest) row evidence h = h

-- A frame that is popped hands its counts to the frame below, and its row to the rows.
pop-Running :
    (setup : ScanSetup) (s t : ScanState) (f parent : Frame) (rest : List Frame)
    (kept : List DirectoryAggregate) (row : DirectoryAggregate) (evidence : List (ErrorKind × ℕ))
    → Running setup s (f ∷ parent ∷ rest)
    → RowOf f row
    → t.rows ≡ kept ++ (row ∷ [])
    → length kept ≤ length s.rows
    → (setup.collapse_policy ≡ none → length kept ≡ length s.rows)
    → All IsCounted kept
    → t.fatal_result ≡ none
    → t.hardlink_count ≡ s.hardlink_count
    → t.had_failure ≡ has_failure t.errors
    → Running setup t (merge_child parent row evidence ∷ rest)
unfolding merge_child
pop-Running setup s t f parent rest kept row evidence h r rows le eq counted not_fatal links
      failure =
    let added = length-append kept (row ∷ []) in
    record {
      not_fatal = not_fatal;
      rooted = merged-IsRooted setup.root_path parent rest row evidence h.rooted;
      hardlinks = omega (arith, h.hardlinks, links, r.hardlinks);
      rows_le = rw rows (omega (arith, h.rows_le, r.dirs, le, added));
      rows_eq = λ e. rw rows (omega (arith, h.rows_eq e, r.dirs, eq e, added));
      no_reason = λ e. (h.no_reason e).1;
      failure = failure;
      frames = (
        omega (arith, r.hardlinks, r.duplicates, r.files, h.frames.0, h.frames.1.0),
        h.frames.1.1,
      );
      counted = rw rows (append-IsCounted kept row (row-IsCounted f row r h.frames.0) counted);
    }

-- The last frame to finish is the root's.
finish_root-Finished :
    (setup : ScanSetup) (s : ScanState) (f : Frame)
    → Running setup s (f ∷ [])
    → Finished setup (finish_frame s f [])
unfolding finish_frame
finish_root-Finished setup s f h =
    let r = finished_row-RowOf f f.collapse_reason in
    let kept = kept_rows f f.collapse_reason s.rows in
    let le = kept_rows-le f f.collapse_reason s.rows in
    let eq = kept_rows-eq f f.collapse_reason s.rows in
    let row = finished_row f f.collapse_reason in
    let added = length-append kept (row ∷ []) in
    let counted = kept_rows-IsCounted f f.collapse_reason s.rows h.counted in
    record {
      front = kept;
      row = row;
      place = refl;
      path = r.path ∙ h.rooted.1;
      parent_path = r.parent_path ∙ h.rooted.2;
      depth = r.depth ∙ h.rooted.3;
      not_fatal = h.not_fatal;
      hardlinks = omega (arith, h.hardlinks, r.hardlinks);
      rows_le = omega (arith, h.rows_le, r.dirs, le, added);
      rows_eq = λ e. omega (arith, h.rows_eq e, r.dirs, eq (h.no_reason e).0, added);
      failure = h.failure;
      counted = append-IsCounted kept row (row-IsCounted f row r h.frames.0) counted;
    }

pub finish_frame-Kept :
    (setup : ScanSetup) (s : ScanState) (f : Frame) (rest : List Frame)
    → Running setup s (f ∷ rest)
    → Kept setup (finish_frame s f rest)
unfolding finish_frame
finish_frame-Kept setup s f [] h = finish_root-Finished setup s f h
finish_frame-Kept setup s f (parent ∷ rest) h =
    pop-Running setup s (finish_frame s f (parent ∷ rest)) f parent rest
      (kept_rows f f.collapse_reason s.rows) (finished_row f f.collapse_reason)
      f.folded_evidence_counts h (finished_row-RowOf f f.collapse_reason) refl
      (kept_rows-le f f.collapse_reason s.rows)
      (λ e. kept_rows-eq f f.collapse_reason s.rows (h.no_reason e).0)
      (kept_rows-IsCounted f f.collapse_reason s.rows h.counted) h.not_fatal refl h.failure

pub initialize_failed-Kept :
    (setup : ScanSetup) (s : ScanState) (f parent : Frame) (rest : List Frame) (e : ScanError)
    → Running setup s (f ∷ parent ∷ rest)
    → (s.had_failure || is_completeness_kind e.kind) ≡ has_failure (s.errors ++ (e ∷ []))
    → Kept setup (initialize_failed setup s f (parent ∷ rest) e)
unfolding initialize_failed
initialize_failed-Kept setup s f parent rest e h failure =
    pop-Running setup s (initialize_failed setup s f (parent ∷ rest) e) f parent rest s.rows _ _ h
      (record {
        path = refl;
        parent_path = refl;
        depth = refl;
        hardlinks = refl;
        duplicates = refl;
        files = refl;
        dirs = refl;
      })
      refl (omega arith) (λ e. refl) h.counted h.not_fatal refl failure
