-- ===== src/Diagnostics/Lsof/Fields.antt =====
-- diagnostics/deleted_open.py: what the parser holds after the fields of a process and of a file.
use mathlib.Core.List.{append-nil}
use watchdirs.Prelude.{
  ◌≡◌, refl, Bool, true, false, Option, none, some, List, [], ◌∷◌, ◌++◌, All, ap, sym, ◌∙◌,
}
use watchdirs.Prelude.Bytes.{Bytes}
use watchdirs.Prelude.Int.{ℤ}
use watchdirs.Prelude.Text.{int_of-digits_text, remove_suffix-append}
use watchdirs.Diagnostics.Rows.{DeletedOpenFile, ReportWarning}
use watchdirs.Diagnostics.Lsof.{
  deleted_marker, Parser, flush_named, flush_pending, flush_lsof_record, handle_tag, handle_field,
}
use watchdirs.Diagnostics.Lsof.Printed.{
  Digits, value, OpenFile, Process, size_fields, file_line, process_line, file_size, file_row,
  size_warnings, IsDecimalSize, IsFile, IsProcess, HasOtherTag, IsOther, print_digits,
}
use watchdirs.Diagnostics.Lsof.Framing.{handle_line}

-- A parser with nothing pending.
abbrev pub ready : Option ℤ → Option Bytes → List DeletedOpenFile → List ReportWarning → Parser
ready pid command rows warnings = record {
  state = record {
    current_pid = pid;
    current_command = command;
    pending_fd = none;
    pending_size = none;
    pending_name = none;
    pending_has_size = false;
  };
  rows = rows;
  warnings = warnings;
}

-- a field with another tag changes nothing
other_skipped : (f : Bytes) (p : Parser) → HasOtherTag f → handle_field f p ≡ p
unfolding handle_field handle_tag
other_skipped [] p h = elim h [ ]
other_skipped (tag ∷ value_) p h = rw (h.0, h.1, h.2, h.3, h.4) refl

others_skipped :
    (fs rest : List Bytes) (p : Parser)
    → All IsOther fs
    → handle_line (fs ++ rest) p ≡ handle_line rest p
unfolding handle_line
others_skipped [] rest p h = refl
others_skipped (f ∷ fs) rest p h =
    ap (handle_line (fs ++ rest)) (other_skipped f p h.0.0) ∙ others_skipped fs rest p h.1

-- the process line and the file line, behind a parser whose pending file has been flushed
pid-ready :
    (proc : Process) (p : Parser) (pid : Option ℤ) (command : Option Bytes)
    (rows : List DeletedOpenFile) (warnings : List ReportWarning)
    → IsProcess proc
    → flush_lsof_record p ≡ ready pid command rows warnings
    → handle_field (b'p' ∷ print_digits proc.pid) p
      ≡ ready (some (value proc.pid)) none rows warnings
unfolding handle_field handle_tag
pid-ready proc p pid command rows warnings h e =
    rw (e, int_of-digits_text proc.pid.first proc.pid.more h.0) refl

command-ready :
    (proc : Process) (rows : List DeletedOpenFile) (warnings : List ReportWarning)
    → handle_field (b'c' ∷ proc.command) (ready (some (value proc.pid)) none rows warnings)
      ≡ ready (some (value proc.pid)) (some proc.command) rows warnings
unfolding handle_field handle_tag
command-ready proc rows warnings = refl

others_none : (fs : List Bytes) (p : Parser) → All IsOther fs → handle_line fs p ≡ p
unfolding handle_line
others_none fs p h = ap (λ l. handle_line l p) (sym (append-nil fs)) ∙ others_skipped fs [] p h

pub process_line-ready :
    (proc : Process) (p : Parser) (pid : Option ℤ) (command : Option Bytes)
    (rows : List DeletedOpenFile) (warnings : List ReportWarning)
    → IsProcess proc
    → flush_lsof_record p ≡ ready pid command rows warnings
    → handle_line (process_line proc) p
      ≡ ready (some (value proc.pid)) (some proc.command) rows warnings
unfolding handle_line process_line
process_line-ready proc p pid command rows warnings h e =
    let q = ready (some (value proc.pid)) none rows warnings in
    let r = ready (some (value proc.pid)) (some proc.command) rows warnings in
    let named = (b'c' ∷ proc.command) ∷ proc.after_command in
    ap (handle_line (proc.after_pid ++ named)) (pid-ready proc p pid command rows warnings h e)
    ∙ others_skipped proc.after_pid named q h.3
    ∙ ap (handle_line proc.after_command) (command-ready proc rows warnings)
    ∙ others_none proc.after_command r h.4

abbrev has_size : Option Digits → Bool
has_size none = false
has_size (some d) = true

-- what is pending after a file line
abbrev pub pending : Process → OpenFile → List DeletedOpenFile → List ReportWarning → Parser
pending proc f rows warnings =
    record (ready (some (value proc.pid)) (some proc.command) rows warnings) {
      state = record {
        current_pid = some (value proc.pid);
        current_command = some proc.command;
        pending_fd = some f.fd;
        pending_size = file_size f.size;
        pending_name = some f.name;
        pending_has_size = has_size f.size;
      };
    }

-- the same, after the fd only
abbrev begun : Process → Bytes → List DeletedOpenFile → List ReportWarning → Parser
begun proc fd rows warnings = record {
  state = record {
    current_pid = some (value proc.pid);
    current_command = some proc.command;
    pending_fd = some fd;
    pending_size = none;
    pending_name = none;
    pending_has_size = false;
  };
  rows = rows;
  warnings = warnings;
}

abbrev pub name_field : OpenFile → Bytes
name_field f = b'n' ∷ (f.name ++ deleted_marker)

-- the same, after the size
abbrev sized : Process → Bytes → Option Digits → List DeletedOpenFile → List ReportWarning → Parser
sized proc fd size rows warnings = record {
  state = record {
    current_pid = some (value proc.pid);
    current_command = some proc.command;
    pending_fd = some fd;
    pending_size = file_size size;
    pending_name = none;
    pending_has_size = has_size size;
  };
  rows = rows;
  warnings = warnings;
}

name-pending :
    (proc : Process) (f : OpenFile) (rows : List DeletedOpenFile) (warnings : List ReportWarning)
    → handle_field (name_field f) (sized proc f.fd f.size rows warnings)
      ≡ pending proc f rows warnings
unfolding handle_field handle_tag
name-pending proc f rows warnings = rw (remove_suffix-append f.name deleted_marker) refl

size-sized :
    (proc : Process) (fd : Bytes) (d : Digits) (rows : List DeletedOpenFile)
    (warnings : List ReportWarning)
    → IsDecimalSize (some d)
    → handle_field (b's' ∷ print_digits d) (begun proc fd rows warnings)
      ≡ sized proc fd (some d) rows warnings
unfolding handle_field handle_tag
size-sized proc fd d rows warnings h = rw (int_of-digits_text d.first d.more h) refl

size_fields-sized :
    (proc : Process) (fd : Bytes) (size : Option Digits) (fields : List Bytes)
    (rows : List DeletedOpenFile) (warnings : List ReportWarning)
    → IsDecimalSize size
    → handle_line (size_fields size fields) (begun proc fd rows warnings)
      ≡ handle_line fields (sized proc fd size rows warnings)
unfolding handle_line size_fields
size_fields-sized proc fd none fields rows warnings h = refl
size_fields-sized proc fd (some d) fields rows warnings h =
    ap (handle_line fields) (size-sized proc fd d rows warnings h)

size_and_name :
    (proc : Process) (f : OpenFile) (rows : List DeletedOpenFile) (warnings : List ReportWarning)
    → IsFile f
    → handle_line
        (size_fields f.size (f.after_size ++ (name_field f ∷ [])))
        (begun proc f.fd rows warnings)
      ≡ pending proc f rows warnings
unfolding handle_line
size_and_name proc f rows warnings h =
    let s = sized proc f.fd f.size rows warnings in
    size_fields-sized proc f.fd f.size (f.after_size ++ (name_field f ∷ [])) rows warnings h.1
    ∙ others_skipped f.after_size (name_field f ∷ []) s h.4
    ∙ name-pending proc f rows warnings

fd-begun :
    (proc : Process) (fd : Bytes) (p : Parser) (rows : List DeletedOpenFile)
    (warnings : List ReportWarning)
    → flush_lsof_record p ≡ ready (some (value proc.pid)) (some proc.command) rows warnings
    → handle_field (b'f' ∷ fd) p ≡ begun proc fd rows warnings
unfolding handle_field handle_tag
fd-begun proc fd p rows warnings e = rw e refl

pub file_line-pending :
    (proc : Process) (f : OpenFile) (p : Parser) (rows : List DeletedOpenFile)
    (warnings : List ReportWarning)
    → IsFile f
    → flush_lsof_record p ≡ ready (some (value proc.pid)) (some proc.command) rows warnings
    → handle_line (file_line f) p ≡ pending proc f rows warnings
unfolding handle_line file_line
file_line-pending proc f p rows warnings h e =
    let fields = size_fields f.size (f.after_size ++ (name_field f ∷ [])) in
    ap (handle_line (f.after_fd ++ fields)) (fd-begun proc f.fd p rows warnings e)
    ∙ others_skipped f.after_fd fields (begun proc f.fd rows warnings) h.3
    ∙ size_and_name proc f rows warnings h

pub pending-flushed :
    (proc : Process) (f : OpenFile) (size : Option Digits) (rows : List DeletedOpenFile)
    (warnings : List ReportWarning)
    → flush_lsof_record (pending proc (record f { size = size }) rows warnings)
      ≡ ready
          (some (value proc.pid))
          (some proc.command)
          (rows ++ (file_row proc (record f { size = size }) ∷ []))
          (warnings ++ size_warnings (value proc.pid) f.name size)
unfolding flush_lsof_record flush_pending flush_named
pending-flushed proc f none rows warnings = refl
pending-flushed proc f (some d) rows warnings = rw (append-nil warnings) refl
