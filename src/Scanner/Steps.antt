-- ===== src/Scanner/Steps.antt =====
-- The steps of the scan of collect/scanner.py: one function per handler of the frame on top,
-- and `_scan_stack`.
use watchdirs.Prelude.{
  ℕ, suc, zero, ◌+◌, Bool, true, false, ◌||◌, Option, none, some, List, [], ◌∷◌, ◌++◌,
  if◌then◌else◌, take, ltb,
}
use watchdirs.Prelude.Bytes.{Bytes}
use watchdirs.Model.{
  MountInfo, MountDecision, CollapseReason, Message, ErrorKind, ScanError, ScanResult,
  DirectoryAggregate,
}
use watchdirs.Mounts.Find.{find_mount_for_path}
use watchdirs.Mounts.Classify.{is_default_virtual_filesystem}
use watchdirs.Scanner.Files.{Stat, StatResult, Node, Listing, is_directory}
use watchdirs.Scanner.Policy.{is_excluded, scan_error, is_completeness_kind}
use watchdirs.Scanner.Descend.{
  InodeKey, EntryDiskUsage, should_descend, disk_bytes_for_entry, apparent_bytes_from_stat,
}
use watchdirs.Scanner.Rows.{
  Frame, new_frame, or_message, directory_row, collapsed_directory_row, record_folded_evidence,
  merge_child, add_usage,
}
use watchdirs.Scanner.Machine.{
  ScanSetup, ScanState, error_message, initialize_frame, push_skipped, count_directory,
  descend_context, or_id, or_signature,
}

-- `append` of an error under `record_skipped`
abbrev pub note_skipped : ScanSetup → Bytes → ErrorKind → Message → List ScanError → List ScanError
note_skipped setup path kind message errors =
    if setup.record_skipped then errors ++ (error_message path kind message ∷ []) else errors

-- a directory that the decision keeps the scanner out of
unfoldable pub skip_directory :
    ScanSetup → ScanState → Frame → List Frame → Bytes → MountDecision → ScanState
skip_directory setup s frame rest path decision =
    let noted = record_folded_evidence ErrorKind.mount_skipped frame in
    let t = record s {
      errors = note_skipped setup path ErrorKind.mount_skipped decision.reason s.errors;
      stack = noted ∷ rest;
    } in
    if is_default_virtual_filesystem decision.filesystem_type
    then t
    else push_skipped t noted rest path decision.reason

-- the frame of a directory that the scanner descends into
abbrev pub child_frame : Frame → Bytes → Stat → Listing → Option MountInfo → Frame
child_frame frame path entry_stat listing mount_info =
    new_frame path (some frame.path_raw) (frame.depth + 1) entry_stat listing
      (or_id mount_info frame.mount_id) (or_signature mount_info frame.mount_signature)

unfoldable pub enter_directory :
    ScanState → Frame → List Frame → Bytes → Stat → Listing → Option MountInfo → ScanState
enter_directory s frame rest path entry_stat listing mount_info = record s {
  stack = child_frame frame path entry_stat listing mount_info ∷ frame ∷ rest;
}

-- `_process_directory_entry`
unfoldable pub process_directory_entry :
    ScanSetup → ScanState → Frame → List Frame → Bytes → Stat → Listing → ScanState
process_directory_entry setup s frame rest path entry_stat listing =
    let counted = count_directory setup frame in
    let mount_info = find_mount_for_path path setup.mounts in
    let decision = should_descend entry_stat mount_info (descend_context setup counted rest) in
    if decision.include
    then enter_directory s counted rest path entry_stat listing mount_info
    else skip_directory setup s counted rest path decision

-- what `_process_file_entry` does with the result of `_disk_bytes_for_entry`
unfoldable pub record_file :
    ScanSetup
    → ScanState
    → Frame
    → List Frame
    → Bytes
    → Option (EntryDiskUsage × List InodeKey)
    → ScanState
record_file setup s frame rest path none =
    let message = Message.dedup_limit_exceeded setup.hardlink_dedup_max_entries in
    record s {
      errors = s.errors ++ (error_message path ErrorKind.hardlink_limit message ∷ []);
      stack =
          record (record_folded_evidence ErrorKind.hardlink_limit frame) {
            error = or_message frame.error (some message);
            entries = [];
          }
          ∷ rest;
      had_failure = true;
    }
record_file setup s frame rest path (some (usage, seen)) = record s {
  stack = add_usage frame usage ∷ rest;
  seen_inodes = seen;
  hardlink_count =
      if ltb 0 usage.hardlink_file_count then s.hardlink_count + 1 else s.hardlink_count;
}

-- `_process_file_entry`
unfoldable pub process_file_entry :
    ScanSetup → ScanState → Frame → List Frame → Bytes → Stat → ScanState
process_file_entry setup s frame rest path entry_stat =
    record_file setup s
      (record frame {
        file_count = frame.file_count + 1;
        apparent_bytes = frame.apparent_bytes + apparent_bytes_from_stat entry_stat;
      })
      rest path (disk_bytes_for_entry entry_stat s.seen_inodes setup.hardlink_dedup_max_entries)

-- an excluded entry, by what `is_dir` returns
unfoldable pub process_excluded :
    ScanSetup → ScanState → Frame → List Frame → Bytes → Option Bool → ScanState
process_excluded setup s frame rest path is_dir =
    let noted = record_folded_evidence ErrorKind.excluded frame in
    let t = record s {
      errors =
          note_skipped setup path ErrorKind.excluded Message.excluded_by_configuration s.errors;
      stack = noted ∷ rest;
    } in
    elim is_dir [
      | none ↦ t
      | some directory ↦
          if directory then push_skipped t noted rest path Message.excluded_by_configuration else t
    ]

-- an entry that is not excluded, by what `stat` returns
unfoldable pub process_stat :
    ScanSetup → ScanState → Frame → List Frame → Bytes → Listing → StatResult → ScanState
process_stat setup s frame rest path listing (StatResult.stat_error e) =
    let error = scan_error path e in
    record s {
      errors = s.errors ++ (error ∷ []);
      stack =
          record (record_folded_evidence error.kind frame) {
            error = or_message frame.error (some error.message);
          }
          ∷ rest;
      had_failure = s.had_failure || is_completeness_kind error.kind;
    }
process_stat setup s frame rest path listing (StatResult.stat_ok entry_stat) =
    if is_directory entry_stat.kind
    then process_directory_entry setup s frame rest path entry_stat listing
    else process_file_entry setup s frame rest path entry_stat

-- `_process_frame_entry`, of the entry, with the frame past it
unfoldable pub process_frame_entry :
    ScanSetup → ScanState → Frame → List Frame → Bytes → Node → ScanState
process_frame_entry setup s frame rest path (Node.node is_dir entry_stat listing) =
    if is_excluded path setup.exclude_paths
    then process_excluded setup s frame rest path is_dir
    else process_stat setup s frame rest path listing entry_stat

-- the row of a finished frame, and the rows it stands after
unfoldable pub finished_row : Frame → Option CollapseReason → DirectoryAggregate
finished_row frame none = directory_row frame
finished_row frame (some reason) = collapsed_directory_row frame reason

unfoldable pub kept_rows :
    Frame → Option CollapseReason → List DirectoryAggregate → List DirectoryAggregate
kept_rows frame none rows = rows
kept_rows frame (some reason) rows = take frame.row_start rows

abbrev pub merge_into : List Frame → DirectoryAggregate → List (ErrorKind × ℕ) → List Frame
merge_into [] row evidence = []
merge_into (parent ∷ rest) row evidence = merge_child parent row evidence ∷ rest

-- `_finish_frame`
unfoldable pub finish_frame : ScanState → Frame → List Frame → ScanState
finish_frame s frame rest =
    let row = finished_row frame frame.collapse_reason in
    record s {
      rows = kept_rows frame frame.collapse_reason s.rows ++ (row ∷ []);
      stack = merge_into rest row frame.folded_evidence_counts;
    }

-- a turn of `_scan_stack` with an initialized frame on top, by the entries it has left
unfoldable pub next_entry :
    ScanSetup → ScanState → Frame → List Frame → List (Bytes × Node) → ScanState
next_entry setup s frame rest [] = finish_frame s frame rest
next_entry setup s frame rest ((path, entry) ∷ entries) =
    process_frame_entry setup s (record frame { entries = entries }) rest path entry

unfoldable pub step_frame : ScanSetup → ScanState → Frame → List Frame → ScanState
step_frame setup s frame rest =
    if frame.initialized
    then next_entry setup s frame rest frame.entries
    else initialize_frame setup s frame rest

-- a turn of `_scan_stack`, by the stack; with none left the state stays
unfoldable pub step_stack : ScanSetup → ScanState → List Frame → ScanState
step_stack setup s [] = s
step_stack setup s (frame ∷ rest) = step_frame setup s frame rest

abbrev pub is_fatal : Option ScanResult → Bool
is_fatal none = false
is_fatal (some result) = true

abbrev pub is_empty : List Frame → Bool
is_empty [] = true
is_empty (f ∷ fs) = false

-- the test of `while`, negated
unfoldable pub is_done : ScanState → Bool
is_done s = is_empty s.stack || is_fatal s.fatal_result

-- `_scan_stack`, on fuel
unfoldable pub scan_stack : ScanSetup → ℕ → ScanState → ScanState
scan_stack setup zero s = s
scan_stack setup (suc fuel) s =
    if is_done s then s else scan_stack setup fuel (step_stack setup s s.stack)
