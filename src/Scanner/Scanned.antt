-- ===== src/Scanner/Scanned.antt =====
-- The outcome of `scan_root` of collect/scanner.py.
use watchdirs.Prelude.{
  ℕ, zero, suc, ◌+◌, ◌≤◌, ◌≡◌, refl, true, false, ◌||◌, Option, none, some, List, [], ◌∷◌, ◌++◌,
  if◌then◌else◌, All, length, ap, any, ◌⊎◌, arith, inl, inr,
}
use watchdirs.Prelude.Bytes.{Bytes}
use watchdirs.Model.{MountInfo, SnapshotStatus, ScanResult, DirectoryAggregate, CollapsePolicy}
use watchdirs.Scanner.Files.{Stat, Listing, Entries, is_directory, is_symlink, StatResult, FileKind}
use watchdirs.Scanner.Rows.{Frame}
use watchdirs.Scanner.Machine.{
  ScanSetup, ScanState, list_frame, initialize_frame, collapse_never_paths,
}
use watchdirs.Scanner.Steps.{step_frame, step_stack, is_done, is_empty, is_fatal, scan_stack}
use watchdirs.Mounts.Find.{find_mount_for_path}
use watchdirs.Mounts.Classify.{classify_mount}
use watchdirs.Scanner.Outcome.{initial-no_reason, scan_stack-Kept}
use watchdirs.Scanner.Root.{
  ScannerOptions, RootAnswers, prepare_scan_root, prepare_stat, prepare_mount, setup_of, scan_root,
  initial_state, scan_from, scan_result, result_of, listing_turns,
}
use watchdirs.Scanner.Turns.{scan_stack-is_done, listing_turns-pos}
use watchdirs.Scanner.Running.{has_failure, IsCounted, Finished, Holds, Kept}

ended-Finished :
    (setup : ScanSetup) (s : ScanState) (stack : List Frame)
    → Holds setup s stack
    → (is_empty stack || is_fatal s.fatal_result) ≡ true
    → Finished setup s
ended-Finished setup s [] h e = h
ended-Finished setup s (f ∷ rest) h e = ground (arith, h.not_fatal)

-- The first turn opens a root that is a directory with a listing.
opened-Kept :
    (setup : ScanSetup) (entries : Entries)
    → is_directory setup.root_stat.kind ≡ true
    → Kept setup (
        step_stack setup
          (initial_state setup (Listing.readable entries))
          (initial_state setup (Listing.readable entries)).stack)
unfolding step_stack step_frame initialize_frame list_frame initial_state
opened-Kept setup entries e = simp e (record {
  not_fatal = refl;
  rooted = (refl, refl, refl, refl);
  hardlinks = refl;
  rows_le = omega arith;
  rows_eq = λ p. refl;
  no_reason = λ p.
      (initial-no_reason setup.root_path setup.collapse_policy (collapse_never_paths setup) p, tt);
  failure = refl;
  frames = ((omega arith, omega arith), tt);
  counted = tt;
})

-- A completed scan of `root`. The rows end with the row of the root, which counts every hard link
-- that the result counts and at least as many directories as there are other rows, and exactly as
-- many when nothing may collapse; each row has consistent counts; and the status tells whether an
-- error was recorded that makes the snapshot incomplete.
pub record Scanned (root : Bytes) (policy : Option CollapsePolicy) (r : ScanResult) : Type 0 where
  pub front : List DirectoryAggregate
  pub row : DirectoryAggregate
  pub place : r.rows ≡ front ++ row ∷ []
  pub path : row.path ≡ root
  pub parent_path : row.parent_path ≡ none
  pub depth : row.depth ≡ 0
  pub hardlinks : r.hardlink_count ≡ row.hardlink_file_count
  pub row_count : r.row_count ≡ length r.rows
  pub rows_le : r.row_count ≤ row.dir_count + 1
  pub rows_eq : policy ≡ none → r.row_count ≡ row.dir_count + 1
  pub counted : All IsCounted r.rows
  pub status :
      r.status ≡ (if has_failure r.errors then SnapshotStatus.partial else SnapshotStatus.complete)
  pub fatal_error : r.fatal_error ≡ none

Finished-Scanned :
    (setup : ScanSetup) (s : ScanState)
    → Finished setup s
    → Scanned setup.root_path setup.collapse_policy (result_of setup s s.fatal_result)
unfolding result_of scan_result
Finished-Scanned setup s h =
    rw (h.not_fatal, result_of)
      (record {
        front = h.front;
        row = h.row;
        place = h.place;
        path = h.path;
        parent_path = h.parent_path;
        depth = h.depth;
        hardlinks = h.hardlinks;
        row_count = refl;
        rows_le = h.rows_le;
        rows_eq = h.rows_eq;
        counted = h.counted;
        status = ap (λ b. if b then SnapshotStatus.partial else SnapshotStatus.complete) h.failure;
        fatal_error = refl;
      })

run-Kept :
    (setup : ScanSetup) (entries : Entries) (fuel : ℕ)
    → is_directory setup.root_stat.kind ≡ true
    → 1 ≤ fuel
    → Kept setup (scan_stack setup fuel (initial_state setup (Listing.readable entries)))
unfolding scan_stack is_done initial_state
run-Kept setup entries zero e h = ground arith
run-Kept setup entries (suc fuel) e h =
    scan_stack-Kept setup fuel
      (step_stack setup (initial_state setup (Listing.readable entries))
        (initial_state setup (Listing.readable entries)).stack)
      (opened-Kept setup entries e)

run-is_done :
    (setup : ScanSetup) (l : Listing)
    → is_done (scan_stack setup (listing_turns l) (initial_state setup l)) ≡ true
unfolding initial_state
run-is_done setup l =
    scan_stack-is_done setup (listing_turns l) (initial_state setup l) (omega arith)

run-Finished :
    (setup : ScanSetup) (entries : Entries)
    → is_directory setup.root_stat.kind ≡ true
    → Finished setup (
        scan_stack setup
          (listing_turns (Listing.readable entries))
          (initial_state setup (Listing.readable entries)))
unfolding is_done
run-Finished setup entries e =
    let l = Listing.readable entries in
    let last = scan_stack setup (listing_turns l) (initial_state setup l) in
    ended-Finished setup last last.stack
      (run-Kept setup entries (listing_turns l) e (listing_turns-pos l)) (run-is_done setup l)

-- The scan of a setup whose root is a directory that can be listed.
scan_from-Scanned :
    (setup : ScanSetup) (entries : Entries)
    → is_directory setup.root_stat.kind ≡ true
    → Scanned setup.root_path setup.collapse_policy (scan_from setup (Listing.readable entries))
unfolding scan_from
scan_from-Scanned setup entries e = Finished-Scanned setup _ (run-Finished setup entries e)

-- What a scan needs of its root.
pub record IsScannable (options : ScannerOptions) (answers : RootAnswers) : Type 0 where
  pub no_link : any (λ link. link) answers.component_is_symlink ≡ false
  pub root_stat : Stat
  pub stat : answers.root_stat ≡ StatResult.stat_ok root_stat
  pub directory : root_stat.kind ≡ FileKind.directory
  pub mounted :
      (options.mounts ≡ [])
      ⊎ ((m : MountInfo) × (find_mount_for_path options.root options.mounts ≡ some m)
          × ((classify_mount (some m) options.mount_policy).include ≡ true))
  pub entries : Entries
  pub listing : answers.listing ≡ Listing.readable entries

prepare_mount-inr :
    (options : ScannerOptions) (t : Stat) (mounts : List MountInfo) (found : Option MountInfo)
    → (mounts ≡ [])
      ⊎ ((m : MountInfo) × (found ≡ some m)
          × ((classify_mount (some m) options.mount_policy).include ≡ true))
    → (m : Option MountInfo) × (prepare_mount options t mounts found ≡ inr (setup_of options t m))
unfolding prepare_mount
prepare_mount-inr options t [] found h = (none, refl)
prepare_mount-inr options t (k ∷ ks) none h = ground arith
prepare_mount-inr options t (k ∷ ks) (some found) (inl e) = ground arith
prepare_mount-inr options t (k ∷ ks) (some found) (inr (m, e, included)) =
    (some found, ground (arith, included))

prepare_scan_root-inr :
    (options : ScannerOptions) (answers : RootAnswers) (h : IsScannable options answers)
    (m : Option MountInfo)
    → prepare_mount options h.root_stat options.mounts
        (find_mount_for_path options.root options.mounts)
      ≡ inr (setup_of options h.root_stat m)
    → prepare_scan_root options answers ≡ inr (setup_of options h.root_stat m)
unfolding prepare_scan_root prepare_stat
prepare_scan_root-inr options answers h m prepared =
    let directory : is_symlink h.root_stat.kind ≡ false = ap is_symlink h.directory in
    rw (h.no_link, h.stat, directory) prepared

scan_root-scan_from :
    (options : ScannerOptions) (answers : RootAnswers) (h : IsScannable options answers)
    (m : Option MountInfo)
    → prepare_mount options h.root_stat options.mounts
        (find_mount_for_path options.root options.mounts)
      ≡ inr (setup_of options h.root_stat m)
    → scan_root options answers
      ≡ scan_from (setup_of options h.root_stat m) (Listing.readable h.entries)
unfolding scan_root
scan_root-scan_from options answers h m prepared =
    rw (prepare_scan_root-inr options answers h m prepared, h.listing) refl

-- A root that no symbolic link leads to, that is a directory which can be listed and that lies on a
-- mount the policy includes, or without any mounts, is scanned to the end: the rows end with the
-- root's, whose path, depth and parent are the root's; the result counts the hard links of that
-- row; there is at most one row for each directory that it counts and one for itself, and exactly
-- that many without a policy to collapse; in each row duplicates are among the hard links and those
-- among the files; the status is PARTIAL if an error was recorded that is neither a skipped entry
-- nor a vanished one, and else COMPLETE; there is no fatal error.
pub scan_root-Scanned :
    (options : ScannerOptions) (answers : RootAnswers)
    → IsScannable options answers
    → Scanned options.root options.collapse_policy (scan_root options answers)
scan_root-Scanned options answers h =
    let (m, prepared) =
      prepare_mount-inr options h.root_stat options.mounts
        (find_mount_for_path options.root options.mounts) h.mounted in
    rw (scan_root-scan_from options answers h m prepared)
      (scan_from-Scanned (setup_of options h.root_stat m) h.entries (ap is_directory h.directory))
