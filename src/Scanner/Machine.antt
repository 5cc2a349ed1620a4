-- ===== src/Scanner/Machine.antt =====
-- The state of a scan of collect/scanner.py, how a frame is initialized, and the parts of the
-- handlers of entries.
use watchdirs.Prelude.{
  ℕ, ◌+◌, ◌*◌, Bool, true, false, ◌&&◌, ◌||◌, not, Option, none, some, List, [], ◌∷◌, ◌++◌, leb,
  if◌then◌else◌, map, length,
}
use watchdirs.Prelude.Bytes.{Bytes}
use watchdirs.Model.{
  SnapshotStatus, MountInfo, MountPolicy, CollapsePolicy, CollapseReason, Message, ErrorKind,
  ScanError, ScanResult, DirectoryAggregate,
}
use watchdirs.Mounts.Find.{find_mount_for_path}
use watchdirs.Scanner.Files.{Stat, Node, Listing, is_directory, sorted_entries}
use watchdirs.Scanner.Policy.{
  is_protected_path, initial_collapse_reason, scan_error, is_completeness_kind,
}
use watchdirs.Scanner.Descend.{InodeKey, Signature, DescendContext, inode_key, mount_signature}
use watchdirs.Scanner.Rows.{
  Frame, directory_row, skipped_directory_row, record_folded_evidence, merge_child,
}

-- `_ScanSetup`
pub record ScanSetup : Type 0 where
  pub root_path : Bytes
  pub exclude_paths : List Bytes
  pub mounts : List MountInfo
  pub mount_policy : MountPolicy
  pub collapse_policy : Option CollapsePolicy
  pub record_skipped : Bool
  pub hardlink_dedup_max_entries : ℕ
  pub root_stat : Stat
  pub root_mount : Option MountInfo

abbrev pub never_of : Option CollapsePolicy → List Bytes
never_of none = []
never_of (some policy) = policy.never

-- `collapse_never_paths`
abbrev pub collapse_never_paths : ScanSetup → List Bytes
collapse_never_paths setup = never_of setup.collapse_policy

-- `_ScanState`. The head of `stack` is its top, and `scan_root` has set `root_device`.
pub record ScanState : Type 0 where
  pub rows : List DirectoryAggregate
  pub errors : List ScanError
  pub seen_inodes : List InodeKey
  pub stack : List Frame
  pub had_failure : Bool
  pub hardlink_count : ℕ
  pub fatal_result : Option ScanResult

abbrev pub error_message : Bytes → ErrorKind → Message → ScanError
error_message path kind message = record { path = path; message = message; kind = kind }

abbrev pub or_errors : List ScanError → ScanError → List ScanError
or_errors [] e = e ∷ []
or_errors (x ∷ xs) e = x ∷ xs

-- `_scan_failure_result`
unfoldable pub scan_failure_result :
    Bytes → ScanError → List DirectoryAggregate → List ScanError → ℕ → ScanResult
scan_failure_result root_path e rows errors hardlink_count = record {
  root_path = root_path;
  rows = rows;
  row_count = length rows;
  status = SnapshotStatus.failed;
  fatal_error = some e.message;
  errors = or_errors errors e;
  hardlink_count = hardlink_count;
}

-- the `except OSError` of `_initialize_frame`; the frame of depth 0 is the one with none below
unfoldable pub initialize_failed :
    ScanSetup → ScanState → Frame → List Frame → ScanError → ScanState
initialize_failed setup s frame [] error = record s {
  errors = s.errors ++ (error ∷ []);
  stack = [];
  fatal_result = some (
      scan_failure_result setup.root_path error s.rows (s.errors ++ (error ∷ [])) s.hardlink_count);
}
initialize_failed setup s frame (parent ∷ rest) error =
    let failed = record (record_folded_evidence error.kind frame) { error = some error.message } in
    record s {
      errors = s.errors ++ (error ∷ []);
      rows = s.rows ++ (directory_row failed ∷ []);
      stack = merge_child parent (directory_row failed) failed.folded_evidence_counts ∷ rest;
      had_failure = s.had_failure || is_completeness_kind error.kind;
    }

abbrev pub found_id : Option MountInfo → Option ℕ
found_id none = none
found_id (some m) = some m.mount_id

-- `mount_info.mount_id if mount_info else ...`, and the same for the signature
abbrev pub or_id : Option MountInfo → Option ℕ → Option ℕ
or_id none id = id
or_id (some m) id = some m.mount_id

abbrev pub or_signature : Option MountInfo → Option Signature → Option Signature
or_signature none s = s
or_signature (some m) s = mount_signature (some m)

-- the mount of a frame, which is looked up if it has no signature
abbrev pub frame_mount_id : List MountInfo → Frame → Option Signature → Option ℕ
frame_mount_id mounts frame (some signature) = frame.mount_id
frame_mount_id mounts frame none = found_id (find_mount_for_path frame.path_raw mounts)

abbrev pub frame_signature : List MountInfo → Frame → Option Signature → Option Signature
frame_signature mounts frame (some signature) = some signature
frame_signature mounts frame none = mount_signature (find_mount_for_path frame.path_raw mounts)

-- `_initialize_frame` without its `except`
abbrev pub initialized_frame : ScanSetup → ℕ → Frame → List (Bytes × Node) → Frame
initialized_frame setup row_start frame entries = record frame {
  mount_id = frame_mount_id setup.mounts frame frame.mount_signature;
  mount_signature = frame_signature setup.mounts frame frame.mount_signature;
  apparent_bytes = frame.initial_stat.st_size;
  disk_bytes = frame.initial_stat.st_blocks * 512;
  directory_identity = some (inode_key frame.initial_stat);
  row_start = row_start;
  collapse_reason =
      initial_collapse_reason frame.path_raw setup.collapse_policy (collapse_never_paths setup);
  entries = entries;
  initialized = true;
}

-- `scandir` of a directory, whose error leaves what the `try` had set
unfoldable pub list_frame : ScanSetup → ScanState → Frame → List Frame → Listing → ScanState
list_frame setup s frame rest (Listing.unreadable e) =
    initialize_failed setup s
      (record (initialized_frame setup (length s.rows) frame []) { initialized = false }) rest
      (scan_error frame.path_raw e)
list_frame setup s frame rest (Listing.readable entries) = record s {
  stack = initialized_frame setup (length s.rows) frame (sorted_entries entries) ∷ rest;
}

-- `_initialize_frame`, of the top frame and the frames below
unfoldable pub initialize_frame : ScanSetup → ScanState → Frame → List Frame → ScanState
initialize_frame setup s frame rest =
    if is_directory frame.initial_stat.kind
    then list_frame setup s frame rest frame.listing
    else initialize_failed setup s frame rest (
        error_message frame.path_raw ErrorKind.not_a_directory
          (Message.not_a_directory_at frame.path_raw))

-- a row for a directory that is not entered
unfoldable pub push_skipped : ScanState → Frame → List Frame → Bytes → Message → ScanState
push_skipped s frame rest path reason =
    let row = skipped_directory_row path (some frame.path_raw) (frame.depth + 1) reason in
    record s { rows = s.rows ++ (row ∷ []); stack = merge_child frame row [] ∷ rest }

abbrev is_none {ℓ} : {A : Type ℓ} → Option A → Bool
is_none none = true
is_none (some a) = false

-- the test of the fan-out
abbrev reaches_fan_out : Option CollapsePolicy → Frame → Bool
reaches_fan_out none frame = false
reaches_fan_out (some policy) frame =
    is_none frame.collapse_reason
    && (not (is_protected_path frame.path_raw policy.never)
        && leb policy.fan_out frame.direct_child_dir_count)

-- the directory counted, and the reason to collapse
unfoldable pub count_directory : ScanSetup → Frame → Frame
count_directory setup frame =
    let counted = record frame { direct_child_dir_count = frame.direct_child_dir_count + 1 } in
    record counted {
      collapse_reason =
          if reaches_fan_out setup.collapse_policy counted
          then some CollapseReason.fan_out
          else frame.collapse_reason;
    }

abbrev pub somes {ℓ} : {A : Type ℓ} → List (Option A) → List A
somes [] = []
somes (none ∷ xs) = somes xs
somes (some a ∷ xs) = a ∷ somes xs

-- `descend_context`
pub descend_context : ScanSetup → Frame → List Frame → DescendContext
descend_context setup frame rest = record {
  root_device = setup.root_stat.st_dev;
  mount_policy = setup.mount_policy;
  current_mount_id = frame.mount_id;
  current_mount_signature = frame.mount_signature;
  active_mount_ids = somes (map (λ f. f.mount_id) (frame ∷ rest));
  active_mount_signatures = somes (map (λ f. f.mount_signature) (frame ∷ rest));
  active_directory_keys = somes (map (λ f. f.directory_identity) (frame ∷ rest));
}
