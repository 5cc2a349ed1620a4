-- ===== src/Scanner/Root.antt =====
-- `_prepare_scan_root`, `_scan_result` and `scan_root` of collect/scanner.py.
use watchdirs.Prelude.{
  ℕ, ◌+◌, Bool, false, Option, none, some, List, [], ◌∷◌, if◌then◌else◌, any, length, ◌⊎◌, inl, inr,
}
use watchdirs.Prelude.Bytes.{Bytes}
use watchdirs.Model.{
  SnapshotStatus, MountInfo, MountPolicy, CollapsePolicy, Message, ErrorKind, ScanResult,
}
use watchdirs.Mounts.Find.{find_mount_for_path}
use watchdirs.Mounts.Classify.{classify_mount}
use watchdirs.Scanner.Files.{Stat, StatResult, Listing, Entries, Node, is_symlink}
use watchdirs.Scanner.Descend.{mount_signature}
use watchdirs.Scanner.Rows.{new_frame}
use watchdirs.Scanner.Machine.{ScanSetup, ScanState, error_message, found_id, scan_failure_result}
use watchdirs.Scanner.Steps.{scan_stack}

-- `ScannerOptions`, with its paths resolved
pub record ScannerOptions : Type 0 where
  pub root : Bytes
  pub exclude_paths : List Bytes
  pub mounts : List MountInfo
  pub mount_policy : MountPolicy
  pub collapse_policy : Option CollapsePolicy
  pub record_skipped : Bool
  pub hardlink_dedup_max_entries : ℕ

-- What the file system answers at the root: `is_symlink` of the root and each of its parents,
-- outermost first, and the root's own `stat` and listing.
pub record RootAnswers : Type 0 where
  pub component_is_symlink : List Bool
  pub root_stat : StatResult
  pub listing : Listing

abbrev fail : Bytes → ErrorKind → Message → ScanResult ⊎ ScanSetup
fail root kind message = inl (scan_failure_result root (error_message root kind message) [] [] 0)

abbrev pub setup_of : ScannerOptions → Stat → Option MountInfo → ScanSetup
setup_of options root_stat root_mount = record {
  root_path = options.root;
  exclude_paths = options.exclude_paths;
  mounts = options.mounts;
  mount_policy = options.mount_policy;
  collapse_policy = options.collapse_policy;
  record_skipped = options.record_skipped;
  hardlink_dedup_max_entries = options.hardlink_dedup_max_entries;
  root_stat = root_stat;
  root_mount = root_mount;
}

-- the root's mount: with no mounts at all there is no test of it
unfoldable pub prepare_mount :
    ScannerOptions → Stat → List MountInfo → Option MountInfo → ScanResult ⊎ ScanSetup
prepare_mount options root_stat [] found = inr (setup_of options root_stat none)
prepare_mount options root_stat (m ∷ ms) none =
    fail options.root ErrorKind.mount_missing Message.no_mountinfo
prepare_mount options root_stat (m ∷ ms) (some root_mount) =
    let decision = classify_mount (some root_mount) options.mount_policy in
    if decision.include
    then inr (setup_of options root_stat (some root_mount))
    else fail options.root ErrorKind.mount_skipped decision.reason

unfoldable pub prepare_stat : ScannerOptions → StatResult → ScanResult ⊎ ScanSetup
prepare_stat options (StatResult.stat_error e) =
    fail options.root ErrorKind.root_error (Message.root_stat_failed e.class e.strerror)
prepare_stat options (StatResult.stat_ok root_stat) =
    if is_symlink root_stat.kind
    then fail options.root ErrorKind.symlink_root Message.symlink_configured
    else prepare_mount options root_stat options.mounts
        (find_mount_for_path options.root options.mounts)

-- `_prepare_scan_root` with `_has_symlink_component`
unfoldable pub prepare_scan_root : ScannerOptions → RootAnswers → ScanResult ⊎ ScanSetup
prepare_scan_root options answers =
    if any (λ link. link) answers.component_is_symlink
    then fail options.root ErrorKind.symlink_root Message.symlink_component
    else prepare_stat options answers.root_stat

-- the state at the start of `scan_root`
unfoldable pub initial_state : ScanSetup → Listing → ScanState
initial_state setup listing = record {
  rows = [];
  errors = [];
  seen_inodes = [];
  stack =
      new_frame setup.root_path none 0 setup.root_stat listing (found_id setup.root_mount)
        (mount_signature setup.root_mount)
      ∷ [];
  had_failure = false;
  hardlink_count = 0;
  fatal_result = none;
}

-- `_scan_result`
unfoldable pub scan_result : ScanSetup → ScanState → ScanResult
scan_result setup s = record {
  root_path = setup.root_path;
  rows = s.rows;
  row_count = length s.rows;
  status = if s.had_failure then SnapshotStatus.partial else SnapshotStatus.complete;
  fatal_error = none;
  errors = s.errors;
  hardlink_count = s.hardlink_count;
}

-- the end of `scan_root`
unfoldable pub result_of : ScanSetup → ScanState → Option ScanResult → ScanResult
result_of setup s (some fatal) = fatal
result_of setup s none = scan_result setup s

unfoldable mutual
  -- the number of turns of `_scan_stack` that a listing, and what remains of one, can take
  pub listing_turns : Listing → ℕ
  listing_turns (Listing.unreadable e) = 1
  listing_turns (Listing.readable entries) = 2 + entries_turns entries

  pub entries_turns : Entries → ℕ
  entries_turns Entries.nil = 0
  entries_turns (Entries.cons path entry entries) = node_turns entry + entries_turns entries

  pub node_turns : Node → ℕ
  node_turns (Node.node is_dir entry_stat listing) = 1 + listing_turns listing

-- `scan_root` after its setup
unfoldable pub scan_from : ScanSetup → Listing → ScanResult
scan_from setup listing =
    let last = scan_stack setup (listing_turns listing) (initial_state setup listing) in
    result_of setup last last.fatal_result

-- `scan_root`, by what `_prepare_scan_root` returns
abbrev pub scan_prepared : Listing → ScanResult ⊎ ScanSetup → ScanResult
scan_prepared listing (inl failure) = failure
scan_prepared listing (inr setup) = scan_from setup listing

-- `scan_root`
unfoldable pub scan_root : ScannerOptions → RootAnswers → ScanResult
scan_root options answers = scan_prepared answers.listing (prepare_scan_root options answers)
