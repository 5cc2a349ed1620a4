-- ===== src/Diagnostics/Lsof/RoundTrip.antt =====
-- diagnostics/deleted_open.py: what `lsof -F0` prints of open files is read back.
use mathlib.Core.List.{append_assoc, append-nil}
use watchdirs.Prelude.{◌≡◌, refl, Option, none, some, List, [], ◌∷◌, ◌++◌, All, ap, sym, ◌∙◌, map}
use watchdirs.Prelude.Bytes.{Bytes}
use watchdirs.Prelude.Int.{ℤ}
use watchdirs.Diagnostics.Rows.{DeletedOpenFile, ReportWarning}
use watchdirs.Diagnostics.Lsof.{
  Parser, flush_pending, flush_lsof_record, initial, parse_lsof_field_output,
}
use watchdirs.Diagnostics.Lsof.Printed.{
  value, OpenFile, Process, file_line, process_line, process_lines, print_lsof, file_row,
  size_warnings, file_rows, file_warnings, rows_of, warnings_of, IsFile, IsProcess,
}
use watchdirs.Diagnostics.Lsof.Framing.{
  handle_line, handle_lines, handle_fields-print_lines, lines_plain,
}
use watchdirs.Diagnostics.Lsof.Fields.{
  ready, process_line-ready, file_line-pending, pending-flushed,
}

ready-flushed :
    (pid : Option ℤ) (command : Option Bytes) (rows : List DeletedOpenFile)
    (warnings : List ReportWarning)
    → flush_lsof_record (ready pid command rows warnings) ≡ ready pid command rows warnings
unfolding flush_lsof_record flush_pending
ready-flushed pid command rows warnings = refl

handle_lines-append :
    (ls ms : List (List Bytes)) (p : Parser)
    → handle_lines (ls ++ ms) p ≡ handle_lines ms (handle_lines ls p)
unfolding handle_lines
handle_lines-append [] ms p = refl
handle_lines-append (l ∷ ls) ms p = handle_lines-append ls ms (handle_line l p)

files-ready :
    (proc : Process) (fs : List OpenFile) (p : Parser) (rows : List DeletedOpenFile)
    (warnings : List ReportWarning)
    → All IsFile fs
    → flush_lsof_record p ≡ ready (some (value proc.pid)) (some proc.command) rows warnings
    → flush_lsof_record (handle_lines (map file_line fs) p)
      ≡ ready
          (some (value proc.pid))
          (some proc.command)
          (rows ++ file_rows proc fs)
          (warnings ++ file_warnings (value proc.pid) fs)
unfolding handle_lines
files-ready proc [] p rows warnings h e = rw (append-nil rows, append-nil warnings) e
files-ready proc (f ∷ fs) p rows warnings h e =
    let w = size_warnings (value proc.pid) f.name f.size in
    let q =
      ap flush_lsof_record (file_line-pending proc f p rows warnings h.0 e)
      ∙ pending-flushed proc f f.size rows warnings in
    rw
      (
        sym (append_assoc rows (file_row proc f ∷ []) (file_rows proc fs)),
        sym (append_assoc warnings w (file_warnings (value proc.pid) fs)),
      )
      (files-ready proc fs (handle_line (file_line f) p) (rows ++ (file_row proc f ∷ []))
        (warnings ++ w) h.1 q)

processes-ready :
    (ps : List Process) (p : Parser) (pid : Option ℤ) (command : Option Bytes)
    (rows : List DeletedOpenFile) (warnings : List ReportWarning)
    → All IsProcess ps
    → flush_lsof_record p ≡ ready pid command rows warnings
    → ((flush_lsof_record (handle_lines (process_lines ps) p)).rows ≡ rows ++ rows_of ps)
      × ((flush_lsof_record (handle_lines (process_lines ps) p)).warnings
          ≡ warnings ++ warnings_of ps)
unfolding handle_lines process_lines
processes-ready [] p pid command rows warnings h e =
    rw (e, append-nil rows, append-nil warnings) (refl, refl)
processes-ready (proc ∷ ps) p pid command rows warnings h e =
    let q = handle_line (process_line proc) p in
    let r = handle_lines (map file_line proc.files) q in
    let eq =
      ap flush_lsof_record (process_line-ready proc p pid command rows warnings h.0 e)
      ∙ ready-flushed (some (value proc.pid)) (some proc.command) rows warnings in
    let er = files-ready proc proc.files q rows warnings h.0.2 eq in
    let fw = file_warnings (value proc.pid) proc.files in
    rw
      (
        handle_lines-append (map file_line proc.files) (process_lines ps) q,
        sym (append_assoc rows (file_rows proc proc.files) (rows_of ps)),
        sym (append_assoc warnings fw (warnings_of ps)),
      )
      (processes-ready ps r (some (value proc.pid)) (some proc.command)
        (rows ++ file_rows proc proc.files) (warnings ++ fw) h.1 er)

-- Whatever processes with deleted open files lsof prints, with any further fields of other tags than
-- p, c, f, s and n behind the pid, the command, the descriptor and the size, each file comes back as one row with its
-- process, and each file without a size as one warning, in order, if no command, descriptor,
-- name and further field holds a NUL or a newline.
pub parse-print_lsof :
    (ps : List Process)
    → All IsProcess ps
    → parse_lsof_field_output (print_lsof ps) ≡ (rows_of ps, warnings_of ps)
unfolding parse_lsof_field_output print_lsof
parse-print_lsof ps h =
    let read = processes-ready ps initial none none [] [] h (ready-flushed none none [] []) in
    rw (handle_fields-print_lines (process_lines ps) initial (lines_plain ps h))
      (λ i. (read.0 i, read.1 i))
