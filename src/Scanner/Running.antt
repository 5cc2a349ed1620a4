-- ===== src/Scanner/Running.antt =====
-- What holds between two turns of the loop of collect/scanner.py once the root is open, and what
-- holds when the loop has ended.
use watchdirs.Prelude.{
  ℕ, ◌+◌, ◌≤◌, ◌≡◌, ◌∙◌, Bool, true, false, none, List, [], ◌∷◌, ◌++◌, any, All, length, sum_of,
  arith,
}
use watchdirs.Prelude.Bytes.{Bytes}
use watchdirs.Model.{ErrorKind, ScanError, DirectoryAggregate}
use watchdirs.Scanner.Rows.{Frame}
use watchdirs.Scanner.Machine.{ScanSetup, ScanState}

-- an error that makes the snapshot incomplete: what is skipped on purpose or has vanished does not
abbrev pub is_failure : ErrorKind → Bool
is_failure ErrorKind.excluded = false
is_failure ErrorKind.mount_skipped = false
is_failure ErrorKind.missing_path = false
is_failure _ = true

abbrev pub has_failure : List ScanError → Bool
has_failure errors = any (λ e. is_failure e.kind) errors

-- the counts of hard links agree with each other and with the count of files
abbrev pub AreCounts : ℕ → ℕ → ℕ → Type 0
AreCounts duplicates hardlinks files = (duplicates ≤ hardlinks) × (hardlinks ≤ files)

abbrev pub IsCounted : DirectoryAggregate → Type 0
IsCounted row = AreCounts row.hardlink_duplicate_count row.hardlink_file_count row.file_count

abbrev pub IsCountedFrame : Frame → Type 0
IsCountedFrame f = AreCounts f.hardlink_duplicate_count f.hardlink_file_count f.file_count

-- the root's frame, with its directory open
abbrev pub IsRootFrame : Bytes → Frame → Type 0
IsRootFrame root f =
    (f.initialized ≡ true) × (f.path_raw ≡ root) × (f.parent_path ≡ none) × (f.depth ≡ 0)

-- the lowest frame is the root's
abbrev pub IsRooted : Bytes → List Frame → Type 0
IsRooted root [] = Unit
IsRooted root (f ∷ []) = IsRootFrame root f
IsRooted root (f ∷ g ∷ rest) = IsRooted root (g ∷ rest)

pub record Running (setup : ScanSetup) (s : ScanState) (stack : List Frame) : Type 0 where
  pub not_fatal : s.fatal_result ≡ none
  pub rooted : IsRooted setup.root_path stack
  pub hardlinks : s.hardlink_count ≡ sum_of (λ f. f.hardlink_file_count) stack
  pub rows_le : length s.rows ≤ sum_of (λ f. f.dir_count) stack
  pub rows_eq : setup.collapse_policy ≡ none → length s.rows ≡ sum_of (λ f. f.dir_count) stack
  pub no_reason : setup.collapse_policy ≡ none → All (λ f. f.collapse_reason ≡ none) stack
  pub failure : s.had_failure ≡ has_failure s.errors
  pub frames : All IsCountedFrame stack
  pub counted : All IsCounted s.rows

-- The rows end with the root's, which accounts for the others.
pub record Finished (setup : ScanSetup) (s : ScanState) : Type 0 where
  pub front : List DirectoryAggregate
  pub row : DirectoryAggregate
  pub place : s.rows ≡ front ++ row ∷ []
  pub path : row.path ≡ setup.root_path
  pub parent_path : row.parent_path ≡ none
  pub depth : row.depth ≡ 0
  pub not_fatal : s.fatal_result ≡ none
  pub hardlinks : s.hardlink_count ≡ row.hardlink_file_count
  pub rows_le : length s.rows ≤ row.dir_count + 1
  pub rows_eq : setup.collapse_policy ≡ none → length s.rows ≡ row.dir_count + 1
  pub failure : s.had_failure ≡ has_failure s.errors
  pub counted : All IsCounted s.rows

-- What a turn leaves, by its stack.
abbrev pub Holds : ScanSetup → ScanState → List Frame → Type 0
Holds setup s [] = Finished setup s
Holds setup s (f ∷ rest) = Running setup s (f ∷ rest)

abbrev pub Kept : ScanSetup → ScanState → Type 0
Kept setup s = Holds setup s s.stack

IsRooted-put :
    (root : Bytes) (f g : Frame) (rest : List Frame)
    → (IsRootFrame root f → IsRootFrame root g)
    → IsRooted root (f ∷ rest)
    → IsRooted root (g ∷ rest)
IsRooted-put root f g [] same h = same h
IsRooted-put root f g (k ∷ rest) same h = h

-- How the frame on top may change along with the state.
pub record Change (setup : ScanSetup) (s t : ScanState) (f g : Frame) : Type 0 where
  pub not_fatal : t.fatal_result ≡ s.fatal_result
  pub root : IsRootFrame setup.root_path f → IsRootFrame setup.root_path g
  pub hardlinks :
      t.hardlink_count + f.hardlink_file_count ≡ s.hardlink_count + g.hardlink_file_count
  pub rows : length t.rows + f.dir_count ≡ length s.rows + g.dir_count
  pub reason : setup.collapse_policy ≡ none → f.collapse_reason ≡ none → g.collapse_reason ≡ none
  pub failure : s.had_failure ≡ has_failure s.errors → t.had_failure ≡ has_failure t.errors
  pub frame : IsCountedFrame f → IsCountedFrame g
  pub counted : All IsCounted s.rows → All IsCounted t.rows

-- The invariant survives a change of the top frame.
pub Running-Change :
    (setup : ScanSetup) (s t : ScanState) (f g : Frame) (rest : List Frame)
    → Running setup s (f ∷ rest)
    → Change setup s t f g
    → Running setup t (g ∷ rest)
Running-Change setup s t f g rest h c = record {
  not_fatal = c.not_fatal ∙ h.not_fatal;
  rooted = IsRooted-put setup.root_path f g rest c.root h.rooted;
  hardlinks = omega (arith, h.hardlinks, c.hardlinks);
  rows_le = omega (arith, h.rows_le, c.rows);
  rows_eq = λ e. omega (arith, h.rows_eq e, c.rows);
  no_reason = λ e. (c.reason e (h.no_reason e).0, (h.no_reason e).1);
  failure = c.failure h.failure;
  frames = (c.frame h.frames.0, h.frames.1);
  counted = c.counted h.counted;
}

-- A directory that is entered adds a frame with nothing counted.
pub Running-push :
    (setup : ScanSetup) (s : ScanState) (f g : Frame) (rest stack : List Frame)
    → Running setup s (f ∷ rest)
    → g.hardlink_file_count ≡ 0
    → g.dir_count ≡ 0
    → g.collapse_reason ≡ none
    → IsCountedFrame g
    → Running setup (record s { stack = stack }) (g ∷ f ∷ rest)
Running-push setup s f g rest stack h no_links no_dirs no_reason counted = record {
  not_fatal = h.not_fatal;
  rooted = h.rooted;
  hardlinks = omega (arith, h.hardlinks);
  rows_le = omega (arith, h.rows_le);
  rows_eq = λ e. omega (arith, h.rows_eq e);
  no_reason = λ e. (no_reason, h.no_reason e);
  failure = h.failure;
  frames = (counted, h.frames);
  counted = h.counted;
}
