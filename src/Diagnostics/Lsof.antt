-- ===== src/Diagnostics/Lsof.antt =====
-- `parse_lsof_field_output` of diagnostics/deleted_open.py: the fields of `lsof -F0`.
pub mod Printed
pub mod Framing
pub mod Fields
pub mod RoundTrip
pub mod Sizes
use watchdirs.Prelude.{
  ℕ, Bool, true, false, Option, none, some, List, [], ◌∷◌, ◌++◌, ◌==◌, if◌then◌else◌,
}
use watchdirs.Prelude.Bytes.{Bytes}
use watchdirs.Prelude.Int.{ℤ}
use watchdirs.Prelude.Text.{strip, split_on, int_of, remove_suffix}
use watchdirs.Diagnostics.Rows.{
  Relevance, ActionHint, Evidence, DeletedOpenFile, ReportWarning, no_process_context,
  no_name_field, non_numeric_pid, missing_size,
}

-- b" (deleted)"
abbrev pub deleted_marker : Bytes
deleted_marker = b' ' ∷ b'(' ∷ b'd' ∷ b'e' ∷ b'l' ∷ b'e' ∷ b't' ∷ b'e' ∷ b'd' ∷ b')' ∷ []

pub record LsofParseState : Type 0 where
  pub current_pid : Option ℤ
  pub current_command : Option Bytes
  pub pending_fd : Option Bytes
  pub pending_size : Option ℤ
  pub pending_name : Option Bytes
  pub pending_has_size : Bool

-- the state with the two lists that the handlers append to
pub record Parser : Type 0 where
  pub state : LsofParseState
  pub rows : List DeletedOpenFile
  pub warnings : List ReportWarning

abbrev pub warn : ReportWarning → Parser → Parser
warn w p = record p { warnings = p.warnings ++ (w ∷ []) }

-- the end of `_flush_lsof_record`
abbrev pub clear_pending : Parser → Parser
clear_pending p = record p {
  state = record (p.state) {
    pending_fd = none;
    pending_size = none;
    pending_name = none;
    pending_has_size = false;
  };
}

abbrev pub fd_or_unknown : Option Bytes → Bytes
fd_or_unknown none = b'?' ∷ []
fd_or_unknown (some fd) = fd

abbrev pub lsof_row : ℤ → Bytes → Option Bytes → Bytes → Option ℤ → DeletedOpenFile
lsof_row pid command fd name size = record {
  pid = pid;
  command = command;
  fd = fd_or_unknown fd;
  size_bytes = size;
  path = name;
  storage_domain = none;
  disk_pressure_relevance = Relevance.unknown;
  action_hint = ActionHint.owner_hint;
  source = Evidence.lsof;
}

abbrev add_row : DeletedOpenFile → Parser → Parser
add_row row p = record p { rows = p.rows ++ (row ∷ []) }

-- the branches of `_flush_lsof_record`, by the pid, the command and the name
flush_named : Option ℤ → Option Bytes → Option Bytes → Parser → Parser
flush_named (some pid) (some command) (some name) p =
    let q = if p.state.pending_has_size then p else warn (missing_size pid name) p in
    add_row (lsof_row pid command p.state.pending_fd name p.state.pending_size) q
flush_named (some pid) (some command) none p = warn (no_name_field pid) p
flush_named (some pid) none name p = warn no_process_context p
flush_named none command name p = warn no_process_context p

-- `_flush_lsof_record`, by the pending fd and name
flush_pending : Option Bytes → Option Bytes → Parser → Parser
flush_pending none none p = p
flush_pending fd name p =
    clear_pending (flush_named p.state.current_pid p.state.current_command name p)

pub flush_lsof_record : Parser → Parser
flush_lsof_record p = flush_pending p.state.pending_fd p.state.pending_name p

abbrev set_pid : Option ℤ → Bytes → Parser → Parser
set_pid (some pid) value p = record p { state = record (p.state) { current_pid = some pid } }
set_pid none value p =
    warn (non_numeric_pid value) (record p { state = record (p.state) { current_pid = none } })

-- `_handle_lsof_pid_field`
abbrev pub handle_lsof_pid_field : Bytes → Parser → Parser
handle_lsof_pid_field value p =
    set_pid (int_of value) value (record p { state = record (p.state) { current_command = none } })

abbrev is_some {ℓ} : {A : Type ℓ} → Option A → Bool
is_some none = false
is_some (some a) = true

abbrev pub set_size : Option ℤ → Parser → Parser
set_size size p = record p {
  state = record (p.state) { pending_size = size; pending_has_size = is_some size };
}

-- `_handle_lsof_size_field`
abbrev pub handle_lsof_size_field : Bytes → Parser → Parser
handle_lsof_size_field value p = set_size (int_of value) p

-- `_handle_lsof_name_field`
abbrev pub handle_lsof_name_field : Bytes → Parser → Parser
handle_lsof_name_field value p = record p {
  state = record (p.state) { pending_name = some (remove_suffix value deleted_marker) };
}

-- one field, by its tag
handle_tag : ℕ → Bytes → Parser → Parser
handle_tag tag value p =
    if tag == b'p'
    then handle_lsof_pid_field value (flush_lsof_record p)
    else if tag == b'c'
    then record p { state = record (p.state) { current_command = some value } }
    else if tag == b'f'
    then (let q = flush_lsof_record p in
        record q { state = record (q.state) { pending_fd = some value } })
    else if tag == b's'
    then handle_lsof_size_field value p
    else if tag == b'n'
    then handle_lsof_name_field value p
    else p

pub handle_field : Bytes → Parser → Parser
handle_field [] p = p
handle_field (tag ∷ value) p = handle_tag tag value p

abbrev pub is_newline : ℕ → Bool
is_newline c = c == b'\n'

-- the loop over the fields
pub handle_fields : List Bytes → Parser → Parser
handle_fields [] p = p
handle_fields (raw_field ∷ rest) p =
    handle_fields rest (handle_field (strip is_newline raw_field) p)

abbrev pub initial : Parser
initial = record {
  state = record {
    current_pid = none;
    current_command = none;
    pending_fd = none;
    pending_size = none;
    pending_name = none;
    pending_has_size = false;
  };
  rows = [];
  warnings = [];
}

unfoldable pub parse_lsof_field_output : Bytes → List DeletedOpenFile × List ReportWarning
unfolding handle_fields handle_field handle_tag flush_lsof_record flush_pending flush_named
parse_lsof_field_output stdout =
    let p = flush_lsof_record (handle_fields (split_on 0 stdout) initial) in (p.rows, p.warnings)
