-- ===== src/Diagnostics/DeletedOpen/Sources.antt =====
-- diagnostics/deleted_open.py: deleted open files from lsof, and from the links below /proc.
use watchdirs.Prelude.{
  ℕ, ◌+◌, ◌-◌, ◌*◌, String, Bool, true, false, ◌&&◌, ◌||◌, Option, none, some, List, [], ◌∷◌, ◌++◌,
  leb, ◌==◌, if◌then◌else◌, all, sorted,
}
use watchdirs.Prelude.Bytes.{Bytes, bytes_lt}
use watchdirs.Prelude.Int.{ℤ, pos, negsuc}
use watchdirs.Prelude.Text.{is_digit, strip, ends_with, remove_suffix}
use watchdirs.Diagnostics.Rows.{
  Relevance, ActionHint, Evidence, DeletedOpenFile, ReportWarning, lsof_not_found,
  lsof_not_executed, lsof_stderr, lsof_partial, lsof_no_output, procfs_unavailable,
  proc_root_denied, fd_directory_denied, fd_denied, procfs_size_unknown,
}
use watchdirs.Diagnostics.Lsof.{parse_lsof_field_output, deleted_marker}

-- rows with the warnings about them
pub record Found : Type 0 where
  pub rows : List DeletedOpenFile
  pub warnings : List ReportWarning

abbrev pub nothing : Found
nothing = record { rows = []; warnings = [] }

abbrev pub only_warning : ReportWarning → Found
only_warning w = record { rows = []; warnings = w ∷ [] }

abbrev pub followed_by : Found → Found → Found
followed_by f g = record { rows = f.rows ++ g.rows; warnings = f.warnings ++ g.warnings }

-- `subprocess.run` with the constant arguments of `_LSOF_ARGV`
pub data LsofAnswer : Type 0 where
  file_not_found : LsofAnswer
  os_error : String → LsofAnswer
  completed : Bytes → Bytes → ℤ → LsofAnswer

pub record LsofCollectionResult : Type 0 where
  pub found : Found
  pub used_lsof : Bool

abbrev pub stderr_warnings : Bytes → List ReportWarning
stderr_warnings [] = []
stderr_warnings (c ∷ cs) = lsof_stderr (c ∷ cs) ∷ []

abbrev is_zero : ℤ → Bool
is_zero (pos n) = n == 0
is_zero (negsuc n) = false

abbrev pub exit_warnings : ℤ → List ReportWarning
exit_warnings code = if is_zero code then [] else lsof_partial code ∷ []

-- `_collect_lsof_deleted_open`
unfoldable pub collect_lsof_deleted_open : LsofAnswer → LsofCollectionResult
collect_lsof_deleted_open file_not_found = record {
  found = only_warning lsof_not_found;
  used_lsof = false;
}
collect_lsof_deleted_open (os_error e) = record {
  found = only_warning (lsof_not_executed e);
  used_lsof = false;
}
collect_lsof_deleted_open (completed [] stderr code) = record {
  found = record { rows = []; warnings = stderr_warnings stderr ++ (lsof_no_output code ∷ []) };
  used_lsof = false;
}
collect_lsof_deleted_open (completed (c ∷ cs) stderr code) =
    let parsed = parse_lsof_field_output (c ∷ cs) in
    record {
      found = record {
        rows = parsed.0;
        warnings = stderr_warnings stderr ++ (parsed.1 ++ exit_warnings code);
      };
      used_lsof = true;
    }

-- A link below /proc/<pid>/fd, or the text of the error that reading it raises.
pub data Link : Type 0 where
  target : Bytes → Link
  unreadable : String → Link

pub record FdEntry : Type 0 where
  pub name : Bytes
  pub link : Link

pub data FdListing : Type 0 where
  listed : List FdEntry → FdListing
  not_listed : String → FdListing

-- An entry of /proc. `comm` is none where it cannot be read.
pub record ProcEntry : Type 0 where
  pub name : Bytes
  pub comm : Option Bytes
  pub fds : FdListing

pub data ProcListing : Type 0 where
  processes : List ProcEntry → ProcListing
  missing : ProcListing
  permission_denied : String → ProcListing
  -- any other `OSError`, which is not caught
  other_error : ProcListing

-- ASCII whitespace, as `str.strip` knows it
abbrev is_str_space : ℕ → Bool
is_str_space c = (leb 9 c && leb c 13) || (leb 28 c && leb c 32)

-- `_read_proc_comm`
abbrev pub read_proc_comm : Option Bytes → Bytes
read_proc_comm none = b'?' ∷ []
read_proc_comm (some text) = strip is_str_space text

abbrev pub procfs_row : ℤ → Bytes → Bytes → Bytes → DeletedOpenFile
procfs_row pid command fd path = record {
  pid = pid;
  command = command;
  fd = fd;
  size_bytes = none;
  path = path;
  storage_domain = none;
  disk_pressure_relevance = Relevance.unknown;
  action_hint = ActionHint.owner_hint;
  source = Evidence.procfs;
}

-- one descriptor
unfoldable pub link_found : ℤ → Bytes → Bytes → Link → Found
link_found pid command fd (unreadable e) = only_warning (fd_denied fd pid e)
link_found pid command fd (target t) =
    let path = remove_suffix t deleted_marker in
    if ends_with t deleted_marker
    then record {
      rows = procfs_row pid command fd path ∷ [];
      warnings = procfs_size_unknown pid fd path ∷ [];
    }
    else nothing

unfoldable pub fds_found : ℤ → Bytes → List FdEntry → Found
fds_found pid command [] = nothing
fds_found pid command (e ∷ es) =
    followed_by (link_found pid command e.name e.link) (fds_found pid command es)

-- `sorted(..., key=lambda e: e.name)`
abbrev pub fd_lt : FdEntry → FdEntry → Bool
fd_lt a b = bytes_lt a.name b.name

abbrev pub proc_lt : ProcEntry → ProcEntry → Bool
proc_lt a b = bytes_lt a.name b.name

abbrev pub listing_found : ℤ → Bytes → FdListing → Found
listing_found pid command (not_listed e) = only_warning (fd_directory_denied pid e)
listing_found pid command (listed fds) = fds_found pid command (sorted fd_lt fds)

-- `entry.name.isdigit()`, and `int(entry.name)` where it is
abbrev pub is_pid : Bytes → Bool
is_pid [] = false
is_pid (c ∷ cs) = all is_digit (c ∷ cs)

abbrev pub digits_value : ℕ → Bytes → ℕ
digits_value n [] = n
digits_value n (c ∷ cs) = digits_value (n * 10 + (c - 0x30)) cs

unfoldable pub process_found : ProcEntry → Found
process_found e =
    if is_pid e.name
    then listing_found (pos (digits_value 0 e.name)) (read_proc_comm e.comm) e.fds
    else nothing

unfoldable pub processes_found : List ProcEntry → Found
processes_found [] = nothing
processes_found (e ∷ es) = followed_by (process_found e) (processes_found es)

-- `scan_procfs_deleted_open`; none where it raises
unfoldable pub scan_procfs_deleted_open : ProcListing → Option Found
scan_procfs_deleted_open missing = some (only_warning procfs_unavailable)
scan_procfs_deleted_open (permission_denied e) = some (only_warning (proc_root_denied e))
scan_procfs_deleted_open other_error = none
scan_procfs_deleted_open (processes es) = some (processes_found (sorted proc_lt es))
