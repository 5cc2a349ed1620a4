-- ===== src/Diagnostics/DeletedOpen/Gathered.antt =====
-- diagnostics/deleted_open.py: which rows lsof and /proc give, and the warnings about them.
use watchdirs.Prelude.{
  Member, All, All-append, ◌∙◌, ◌≡◌, ◌↔◌, refl, sym, Bool, true, false, Option, none, some, List,
  [], ◌∷◌, ◌++◌, arith, sorted, if-both, Bool-cases, inl, inr,
}
use watchdirs.Prelude.Bytes.{Bytes}
use watchdirs.Prelude.Int.{ℤ, pos}
use watchdirs.Prelude.Text.{ends_with}
use watchdirs.Diagnostics.Lsof.{deleted_marker, parse_lsof_field_output}
use watchdirs.Diagnostics.Rows.{
  procfs_unavailable, proc_root_denied, lsof_no_output, ReportWarning, Evidence, DeletedOpenFile,
}
use watchdirs.Diagnostics.Lsof.Sizes.{
  HasWarning, weaken_left, weaken_right, unsized_count, missing_count, count_append, missing_append,
  parse_lsof_field_output-unsized,
}
use watchdirs.Diagnostics.DeletedOpen.Sources.{
  Found, only_warning, followed_by, LsofAnswer, file_not_found, os_error, completed, Link, target,
  unreadable, FdEntry, FdListing, listed, not_listed, ProcEntry, ProcListing, processes, missing,
  permission_denied, other_error, stderr_warnings, exit_warnings, is_pid, digits_value,
  read_proc_comm, proc_lt, fd_lt, collect_lsof_deleted_open, scan_procfs_deleted_open, link_found,
  fds_found, listing_found, process_found, processes_found,
}
use watchdirs.Diagnostics.DeletedOpen.Held.{IsHeld, sorted_processes_iff}
use watchdirs.Diagnostics.DeletedOpen.{from_procfs, gather}

-- each row without a size has its warning, and there are no further ones of these
abbrev pub IsAccounted : Found → Type 0
IsAccounted f =
    (unsized_count f.rows ≡ missing_count f.warnings) × All (HasWarning f.warnings) f.rows

followed_by-IsAccounted :
    (f g : Found) → IsAccounted f → IsAccounted g → IsAccounted (followed_by f g)
followed_by-IsAccounted f g hf hg = (
  omega (arith, hf.0, hg.0, count_append f.rows g.rows, missing_append f.warnings g.warnings),
  All-append (HasWarning (f.warnings ++ g.warnings)) f.rows g.rows
      (weaken_left f.warnings g.warnings f.rows hf.1)
      (weaken_right f.warnings g.warnings g.rows hg.1),
)

link_found-IsAccounted :
    (pid : ℤ) (command fd : Bytes) (l : Link) → IsAccounted (link_found pid command fd l)
unfolding link_found
link_found-IsAccounted pid command fd (unreadable e) = (refl, tt)
link_found-IsAccounted pid command fd (target t) =
    if-both IsAccounted (ends_with t deleted_marker) (refl, ((λ e. inl refl), tt)) (refl, tt)

fds_found-IsAccounted :
    (pid : ℤ) (command : Bytes) (es : List FdEntry) → IsAccounted (fds_found pid command es)
unfolding fds_found
fds_found-IsAccounted pid command [] = (refl, tt)
fds_found-IsAccounted pid command (e ∷ es) =
    followed_by-IsAccounted (link_found pid command e.name e.link) (fds_found pid command es)
      (link_found-IsAccounted pid command e.name e.link) (fds_found-IsAccounted pid command es)

listing_found-IsAccounted :
    (pid : ℤ) (command : Bytes) (l : FdListing) → IsAccounted (listing_found pid command l)
listing_found-IsAccounted pid command (not_listed e) = (refl, tt)
listing_found-IsAccounted pid command (listed fds) =
    fds_found-IsAccounted pid command (sorted fd_lt fds)

processes_found-IsAccounted : (es : List ProcEntry) → IsAccounted (processes_found es)
unfolding processes_found process_found
processes_found-IsAccounted [] = (refl, tt)
processes_found-IsAccounted (e ∷ es) =
    followed_by-IsAccounted (process_found e) (processes_found es)
      (if-both IsAccounted (is_pid e.name)
        (listing_found-IsAccounted (pos (digits_value 0 e.name)) (read_proc_comm e.comm) e.fds)
        (refl, tt))
      (processes_found-IsAccounted es)

-- lsof wrote something on its standard output
abbrev pub is_printed : LsofAnswer → Bool
is_printed (completed (c ∷ cs) stderr code) = true
is_printed _ = false

no_missing :
    (stderr : Bytes) (more : List ReportWarning)
    → missing_count (stderr_warnings stderr ++ more) ≡ missing_count more
no_missing [] more = refl
no_missing (c ∷ cs) more = refl

exit_no_missing : (code : ℤ) → missing_count (exit_warnings code) ≡ 0
exit_no_missing code = ground arith

lsof-IsAccounted : (answer : LsofAnswer) → IsAccounted (collect_lsof_deleted_open answer).found
unfolding collect_lsof_deleted_open
lsof-IsAccounted file_not_found = (refl, tt)
lsof-IsAccounted (os_error e) = (refl, tt)
lsof-IsAccounted (completed [] stderr code) =
    (sym (no_missing stderr (lsof_no_output code ∷ [])), tt)
lsof-IsAccounted (completed (c ∷ cs) stderr code) =
    let parsed = parse_lsof_field_output (c ∷ cs) in
    let (number, each) = parse_lsof_field_output-unsized (c ∷ cs) in
    let more = exit_warnings code in
    let total : unsized_count parsed.0 ≡ missing_count (parsed.1 ++ more) =
      omega (arith, number, missing_append parsed.1 more, exit_no_missing code) in
    (
      total ∙ sym (no_missing stderr (parsed.1 ++ more)),
      weaken_right (stderr_warnings stderr) (parsed.1 ++ more) parsed.0
          (weaken_left parsed.1 more parsed.0 each),
    )

used_lsof-is_printed :
    (answer : LsofAnswer) → (collect_lsof_deleted_open answer).used_lsof ≡ is_printed answer
unfolding collect_lsof_deleted_open
used_lsof-is_printed file_not_found = refl
used_lsof-is_printed (os_error e) = refl
used_lsof-is_printed (completed [] stderr code) = refl
used_lsof-is_printed (completed (c ∷ cs) stderr code) = refl

-- what lsof wrote on its standard output, if it ran
abbrev pub printed_by : LsofAnswer → Bytes
printed_by (completed stdout stderr code) = stdout
printed_by _ = []

abbrev pub entries_of : ProcListing → List ProcEntry
entries_of (processes es) = es
entries_of _ = []

-- What the rows of an outcome satisfy: the accounts, and where they come from. Those of lsof are
-- what it printed; those of /proc are the deleted files that its processes hold open.
abbrev pub IsOutcome : LsofAnswer → ProcListing → Option (Found × Evidence) → Type 0
IsOutcome answer proc none = (is_printed answer ≡ false) × (proc ≡ other_error)
IsOutcome answer proc (some (f, Evidence.lsof)) =
    IsAccounted f
    × (is_printed answer ≡ true)
    × (f.rows ≡ (parse_lsof_field_output (printed_by answer)).0)
IsOutcome answer proc (some (f, Evidence.procfs)) =
    IsAccounted f
    × (is_printed answer ≡ false)
    × ((row : DeletedOpenFile) → Member row f.rows ↔ IsHeld (entries_of proc) row)

-- lsof finds no rows where it printed nothing
lsof_silent :
    (answer : LsofAnswer)
    → is_printed answer ≡ false
    → (collect_lsof_deleted_open answer).found.rows ≡ []
unfolding collect_lsof_deleted_open
lsof_silent file_not_found h = refl
lsof_silent (os_error e) h = refl
lsof_silent (completed [] stderr code) h = refl
lsof_silent (completed (c ∷ cs) stderr code) h = absurd (ground (arith, h))

lsof_rows :
    (answer : LsofAnswer)
    → is_printed answer ≡ true
    → (collect_lsof_deleted_open answer).found.rows
      ≡ (parse_lsof_field_output (printed_by answer)).0
unfolding collect_lsof_deleted_open
lsof_rows file_not_found h = absurd (ground (arith, h))
lsof_rows (os_error e) h = absurd (ground (arith, h))
lsof_rows (completed [] stderr code) h = absurd (ground (arith, h))
lsof_rows (completed (c ∷ cs) stderr code) h = refl

no_process : (row : DeletedOpenFile) → Member row [] ↔ IsHeld [] row
no_process row = (λ h. elim h [ ], λ h. elim (h.1) [ ])

-- the fallback, where lsof printed nothing
procfs-IsOutcome :
    (answer : LsofAnswer) (proc : ProcListing) (g : Found)
    → is_printed answer ≡ false
    → IsAccounted g
    → ((row : DeletedOpenFile) → Member row g.rows ↔ IsHeld (entries_of proc) row)
    → IsOutcome answer proc (from_procfs (collect_lsof_deleted_open answer).found (some g))
procfs-IsOutcome answer proc g silent h held = (
  followed_by-IsAccounted (collect_lsof_deleted_open answer).found g (lsof-IsAccounted answer) h,
  silent,
  λ row. rw (lsof_silent answer silent) (held row),
)

fallback-IsOutcome :
    (answer : LsofAnswer) (proc : ProcListing)
    → is_printed answer ≡ false
    → IsOutcome answer proc
        (from_procfs (collect_lsof_deleted_open answer).found (scan_procfs_deleted_open proc))
unfolding scan_procfs_deleted_open
fallback-IsOutcome answer missing silent =
    procfs-IsOutcome answer missing (only_warning procfs_unavailable) silent (refl, tt) no_process
fallback-IsOutcome answer (permission_denied e) silent =
    procfs-IsOutcome answer (permission_denied e) (only_warning (proc_root_denied e)) silent
      (refl, tt) no_process
fallback-IsOutcome answer other_error silent = (silent, refl)
fallback-IsOutcome answer (processes es) silent =
    procfs-IsOutcome answer (processes es) (processes_found (sorted proc_lt es)) silent
      (processes_found-IsAccounted (sorted proc_lt es)) (λ row. sorted_processes_iff row es)

-- For any answer of lsof and any listing of /proc. If lsof prints something, the rows are those that
-- are parsed from it. Otherwise they are exactly the deleted files to which the descriptors of the
-- listed processes lead; or listing /proc raises an error that is not caught, and there are none.
-- Each row without a size has its warning, and there are as many such warnings as such rows.
pub gather-IsOutcome :
    (answer : LsofAnswer) (proc : ProcListing) → IsOutcome answer proc (gather answer proc)
unfolding gather
gather-IsOutcome answer proc = elim (Bool-cases (is_printed answer)) [
  | inl printed ↦
      rw (used_lsof-is_printed answer, printed)
        (lsof-IsAccounted answer, printed, lsof_rows answer printed)
  | inr silent ↦ rw (used_lsof-is_printed answer, silent) (fallback-IsOutcome answer proc silent)
]
