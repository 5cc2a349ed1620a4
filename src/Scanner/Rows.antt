-- ===== src/Scanner/Rows.antt =====
-- The frames of collect/scanner.py, and the rows that it makes of them.
use watchdirs.Prelude.{ℕ, ◌+◌, Bool, true, false, Option, none, some, List, [], ltb, if◌then◌else◌}
use watchdirs.Prelude.Bytes.{Bytes}
use watchdirs.Model.{CollapseReason, Message, ErrorKind, DirectoryAggregate}
use watchdirs.Scanner.Files.{Stat, Node, Listing}
use watchdirs.Scanner.Policy.{add_evidence, merge_evidence, collapsed_evidence_summary}
use watchdirs.Scanner.Descend.{InodeKey, Signature, EntryDiskUsage}

-- `_Frame`. `initial_stat` is what the scanner passes, which it always does; `listing` is what
-- `scandir` will give, and `entries` holds the entries from `next_index` on.
pub record Frame : Type 0 where
  pub path_raw : Bytes
  pub parent_path : Option Bytes
  pub depth : ℕ
  pub initial_stat : Stat
  pub listing : Listing
  pub initialized : Bool
  pub directory_identity : Option InodeKey
  pub mount_id : Option ℕ
  pub mount_signature : Option Signature
  pub apparent_bytes : ℕ
  pub disk_bytes : ℕ
  pub file_count : ℕ
  pub dir_count : ℕ
  pub error : Option Message
  pub entries : List (Bytes × Node)
  pub row_start : ℕ
  pub collapse_reason : Option CollapseReason
  pub direct_child_dir_count : ℕ
  pub top_child_path : Option Bytes
  pub top_child_disk_bytes : Option ℕ
  pub folded_evidence_counts : List (ErrorKind × ℕ)
  pub hardlink_file_count : ℕ
  pub hardlink_duplicate_count : ℕ
  pub hardlink_duplicate_disk_bytes : ℕ
  pub hardlink_first_seen_disk_bytes : ℕ

-- the constructor call with its defaults
abbrev pub new_frame :
    Bytes → Option Bytes → ℕ → Stat → Listing → Option ℕ → Option Signature → Frame
new_frame path parent_path depth s listing mount_id mount_signature = record {
  path_raw = path;
  parent_path = parent_path;
  depth = depth;
  initial_stat = s;
  listing = listing;
  initialized = false;
  directory_identity = none;
  mount_id = mount_id;
  mount_signature = mount_signature;
  apparent_bytes = 0;
  disk_bytes = 0;
  file_count = 0;
  dir_count = 0;
  error = none;
  entries = [];
  row_start = 0;
  collapse_reason = none;
  direct_child_dir_count = 0;
  top_child_path = none;
  top_child_disk_bytes = none;
  folded_evidence_counts = [];
  hardlink_file_count = 0;
  hardlink_duplicate_count = 0;
  hardlink_duplicate_disk_bytes = 0;
  hardlink_first_seen_disk_bytes = 0;
}

-- `a or b`, on messages, none of which is empty
abbrev pub or_message : Option Message → Option Message → Option Message
or_message none b = b
or_message (some a) b = some a

-- `_directory_row`
abbrev pub directory_row : Frame → DirectoryAggregate
directory_row frame = record {
  snapshot_id = 0;
  path = frame.path_raw;
  parent_path = frame.parent_path;
  depth = frame.depth;
  apparent_bytes = frame.apparent_bytes;
  disk_bytes = frame.disk_bytes;
  file_count = frame.file_count;
  dir_count = frame.dir_count;
  error = frame.error;
  hardlink_file_count = frame.hardlink_file_count;
  hardlink_duplicate_count = frame.hardlink_duplicate_count;
  hardlink_duplicate_disk_bytes = frame.hardlink_duplicate_disk_bytes;
  hardlink_first_seen_disk_bytes = frame.hardlink_first_seen_disk_bytes;
  collapsed = false;
  collapse_reason = none;
  collapsed_dirs = none;
  top_child_path = none;
  top_child_disk_bytes = none;
}

-- `_collapsed_directory_row`
abbrev pub collapsed_directory_row : Frame → CollapseReason → DirectoryAggregate
collapsed_directory_row frame reason = record (directory_row frame) {
  error = or_message (collapsed_evidence_summary frame.folded_evidence_counts) frame.error;
  collapsed = true;
  collapse_reason = some reason;
  collapsed_dirs = some frame.dir_count;
  top_child_path = frame.top_child_path;
  top_child_disk_bytes = frame.top_child_disk_bytes;
}

-- `_skipped_directory_row`
abbrev pub skipped_directory_row : Bytes → Option Bytes → ℕ → Message → DirectoryAggregate
skipped_directory_row path parent_path depth error = record {
  snapshot_id = 0;
  path = path;
  parent_path = parent_path;
  depth = depth;
  apparent_bytes = 0;
  disk_bytes = 0;
  file_count = 0;
  dir_count = 0;
  error = some error;
  hardlink_file_count = 0;
  hardlink_duplicate_count = 0;
  hardlink_duplicate_disk_bytes = 0;
  hardlink_first_seen_disk_bytes = 0;
  collapsed = false;
  collapse_reason = none;
  collapsed_dirs = none;
  top_child_path = none;
  top_child_disk_bytes = none;
}

-- `_record_folded_evidence`
abbrev pub record_folded_evidence : ErrorKind → Frame → Frame
record_folded_evidence kind frame = record frame {
  folded_evidence_counts = add_evidence kind 1 frame.folded_evidence_counts;
}

-- `parent.top_child_disk_bytes is None or child_row.disk_bytes > parent.top_child_disk_bytes`
abbrev is_top : Option ℕ → ℕ → Bool
is_top none n = true
is_top (some m) n = ltb m n

-- `_merge_child`: none for `child_evidence_counts` merges nothing, as the empty dict does
unfoldable pub merge_child : Frame → DirectoryAggregate → List (ErrorKind × ℕ) → Frame
merge_child parent row evidence = record parent {
  apparent_bytes = parent.apparent_bytes + row.apparent_bytes;
  disk_bytes = parent.disk_bytes + row.disk_bytes;
  file_count = parent.file_count + row.file_count;
  dir_count = parent.dir_count + (row.dir_count + 1);
  hardlink_file_count = parent.hardlink_file_count + row.hardlink_file_count;
  hardlink_duplicate_count = parent.hardlink_duplicate_count + row.hardlink_duplicate_count;
  hardlink_duplicate_disk_bytes =
      parent.hardlink_duplicate_disk_bytes + row.hardlink_duplicate_disk_bytes;
  hardlink_first_seen_disk_bytes =
      parent.hardlink_first_seen_disk_bytes + row.hardlink_first_seen_disk_bytes;
  top_child_path =
      if is_top parent.top_child_disk_bytes row.disk_bytes
      then some row.path
      else parent.top_child_path;
  top_child_disk_bytes =
      if is_top parent.top_child_disk_bytes row.disk_bytes
      then some row.disk_bytes
      else parent.top_child_disk_bytes;
  folded_evidence_counts = merge_evidence parent.folded_evidence_counts evidence;
}

-- `frame` with what a file adds to it
unfoldable pub add_usage : Frame → EntryDiskUsage → Frame
add_usage frame u = record frame {
  disk_bytes = frame.disk_bytes + u.disk_bytes;
  hardlink_file_count = frame.hardlink_file_count + u.hardlink_file_count;
  hardlink_duplicate_count = frame.hardlink_duplicate_count + u.hardlink_duplicate_count;
  hardlink_duplicate_disk_bytes =
      frame.hardlink_duplicate_disk_bytes + u.hardlink_duplicate_disk_bytes;
  hardlink_first_seen_disk_bytes =
      frame.hardlink_first_seen_disk_bytes + u.hardlink_first_seen_disk_bytes;
}
