-- ===== src/Diagnostics/Lsof/Sizes.antt =====
-- diagnostics/deleted_open.py: rows without a size and the warnings about them, for any output.
use watchdirs.Prelude.Members.{append-Member}
use watchdirs.Prelude.{
  Member, All, All-append, ℕ, ◌+◌, ◌≡◌, refl, Bool, true, false, Option, none, some, List, [], ◌∷◌,
  ◌++◌, ◌==◌, arith, length, filter, if◌then◌else◌, length-append, filter-append, Bool-cases, inl,
  inr, ap, if-both, ◌∙◌,
}
use watchdirs.Prelude.Bytes.{Bytes}
use watchdirs.Prelude.Int.{ℤ}
use watchdirs.Prelude.Text.{strip, int_of, split_on}
use watchdirs.Diagnostics.Rows.{
  DeletedOpenFile, ReportWarning, no_process_context, no_name_field, non_numeric_pid, missing_size,
  is_missing_size, Evidence, procfs_size_unknown,
}
use watchdirs.Diagnostics.Lsof.{
  Parser, warn, lsof_row, set_pid, set_size, flush_named, flush_pending, flush_lsof_record,
  handle_tag, handle_field, handle_fields, initial, is_newline, parse_lsof_field_output,
}

abbrev has_no_size : Option ℤ → Bool
has_no_size none = true
has_no_size (some size) = false

abbrev pub is_unsized : DeletedOpenFile → Bool
is_unsized row = has_no_size row.size_bytes

-- how many rows have no size, and how many warnings say so
abbrev pub unsized_count : List DeletedOpenFile → ℕ
unsized_count rows = length (filter is_unsized rows)

abbrev pub missing_count : List ReportWarning → ℕ
missing_count warnings = length (filter is_missing_size warnings)

-- the warning about the size of a row, by where the row comes from
abbrev pub size_warning : Evidence → DeletedOpenFile → ReportWarning
size_warning Evidence.lsof row = missing_size row.pid row.path
size_warning Evidence.procfs row = procfs_size_unknown row.pid row.fd row.path

-- a row without a size has its warning
abbrev pub HasWarning : List ReportWarning → DeletedOpenFile → Type 0
HasWarning ws row = row.size_bytes ≡ none → Member (size_warning row.source row) ws

pub weaken_left :
    (ws more : List ReportWarning) (rows : List DeletedOpenFile)
    → All (HasWarning ws) rows
    → All (HasWarning (ws ++ more)) rows
weaken_left ws more [] h = tt
weaken_left ws more (row ∷ rows) h = (
  (λ e. append-Member (size_warning row.source row) ws more (inl (h.0 e))),
  weaken_left ws more rows h.1,
)

pub weaken_right :
    (ws more : List ReportWarning) (rows : List DeletedOpenFile)
    → All (HasWarning more) rows
    → All (HasWarning (ws ++ more)) rows
weaken_right ws more [] h = tt
weaken_right ws more (row ∷ rows) h = (
  (λ e. append-Member (size_warning row.source row) ws more (inr (h.0 e))),
  weaken_right ws more rows h.1,
)

abbrev CountsAgree : Parser → Type 0
CountsAgree p =
    (unsized_count p.rows ≡ missing_count p.warnings) × All (HasWarning p.warnings) p.rows

record IsCounted (p : Parser) : Type 0 where
  flag : p.state.pending_has_size ≡ (if has_no_size p.state.pending_size then false else true)
  counts : CountsAgree p

pub count_append :
    (rows more : List DeletedOpenFile)
    → unsized_count (rows ++ more) ≡ unsized_count rows + unsized_count more
count_append rows more =
    ap length (filter-append is_unsized rows more)
    ∙ length-append (filter is_unsized rows) (filter is_unsized more)

pub missing_append :
    (ws more : List ReportWarning)
    → missing_count (ws ++ more) ≡ missing_count ws + missing_count more
missing_append ws more =
    ap length (filter-append is_missing_size ws more)
    ∙ length-append (filter is_missing_size ws) (filter is_missing_size more)

warned :
    (w : ReportWarning) (p : Parser)
    → is_missing_size w ≡ false
    → CountsAgree p
    → CountsAgree (warn w p)
warned w p h e = (
  ground (arith, missing_append p.warnings (w ∷ []), e.0),
  weaken_left p.warnings (w ∷ []) p.rows e.1,
)

flush_named-CountsAgree :
    (pid : Option ℤ) (command name : Option Bytes) (p : Parser)
    → IsCounted p
    → CountsAgree (flush_named pid command name p)
unfolding flush_named
flush_named-CountsAgree (some pid) (some command) (some name) p h =
    let row = lsof_row pid command p.state.pending_fd name p.state.pending_size in
    let w = missing_size pid name ∷ [] in
    elim (Bool-cases p.state.pending_has_size) [
      | inl e ↦
          let sized : ¬ (p.state.pending_size ≡ none) =
            λ k. ground (arith, h.flag, e, ap has_no_size k) in
          rw e (
            ground (arith, count_append p.rows (row ∷ []), h.flag, h.counts.0),
            All-append (HasWarning p.warnings) p.rows (row ∷ []) h.counts.1
                ((λ k. absurd (sized k)), tt),
          )
      | inr e ↦ rw e (
        ground (
          arith,
          count_append p.rows (row ∷ []),
          missing_append p.warnings w,
          h.flag,
          h.counts.0,
        ),
        All-append (HasWarning (p.warnings ++ w)) p.rows (row ∷ [])
            (weaken_left p.warnings w p.rows h.counts.1)
            ((λ k. append-Member (missing_size pid name) p.warnings w (inr (inl refl))), tt),
      )
    ]
flush_named-CountsAgree (some pid) (some command) none p h =
    warned (no_name_field pid) p refl h.counts
flush_named-CountsAgree (some pid) none name p h = warned no_process_context p refl h.counts
flush_named-CountsAgree none command name p h = warned no_process_context p refl h.counts

flush_pending-IsCounted :
    (fd name : Option Bytes) (p : Parser) → IsCounted p → IsCounted (flush_pending fd name p)
unfolding flush_pending
flush_pending-IsCounted none none p h = h
flush_pending-IsCounted none (some name) p h = record {
  flag = refl;
  counts = flush_named-CountsAgree p.state.current_pid p.state.current_command (some name) p h;
}
flush_pending-IsCounted (some fd) name p h = record {
  flag = refl;
  counts = flush_named-CountsAgree p.state.current_pid p.state.current_command name p h;
}

flush_lsof_record-IsCounted : (p : Parser) → IsCounted p → IsCounted (flush_lsof_record p)
unfolding flush_lsof_record
flush_lsof_record-IsCounted p h =
    flush_pending-IsCounted p.state.pending_fd p.state.pending_name p h

set_pid-IsCounted :
    (pid : Option ℤ) (value : Bytes) (p : Parser) → IsCounted p → IsCounted (set_pid pid value p)
set_pid-IsCounted (some pid) value p h = record { flag = h.flag; counts = h.counts }
set_pid-IsCounted none value p h = record {
  flag = h.flag;
  counts = warned (non_numeric_pid value) p refl h.counts;
}

sized-IsCounted : (size : Option ℤ) (p : Parser) → IsCounted p → IsCounted (set_size size p)
sized-IsCounted none p h = record { flag = refl; counts = h.counts }
sized-IsCounted (some size) p h = record { flag = refl; counts = h.counts }

handle_tag-IsCounted :
    (tag : ℕ) (value : Bytes) (p : Parser) → IsCounted p → IsCounted (handle_tag tag value p)
unfolding handle_tag
handle_tag-IsCounted tag value p h =
    let flushed = flush_lsof_record-IsCounted p h in
    let q = flush_lsof_record p in
    if-both IsCounted (tag == b'p')
      (set_pid-IsCounted (int_of value) value
        (record q { state = record (q.state) { current_command = none } })
        (record { flag = flushed.flag; counts = flushed.counts }))
      (if-both IsCounted (tag == b'c') (record { flag = h.flag; counts = h.counts })
        (if-both IsCounted (tag == b'f') (record { flag = flushed.flag; counts = flushed.counts })
          (if-both IsCounted (tag == b's') (sized-IsCounted (int_of value) p h)
            (if-both IsCounted (tag == b'n') (record { flag = h.flag; counts = h.counts }) h))))

handle_field-IsCounted :
    (field : Bytes) (p : Parser) → IsCounted p → IsCounted (handle_field field p)
unfolding handle_field
handle_field-IsCounted [] p h = h
handle_field-IsCounted (tag ∷ value) p h = handle_tag-IsCounted tag value p h

handle_fields-IsCounted :
    (fields : List Bytes) (p : Parser) → IsCounted p → IsCounted (handle_fields fields p)
unfolding handle_fields
handle_fields-IsCounted [] p h = h
handle_fields-IsCounted (f ∷ fs) p h =
    handle_fields-IsCounted fs (handle_field (strip is_newline f) p)
      (handle_field-IsCounted (strip is_newline f) p h)

-- Of any output of lsof, well formed or not: as many rows are without a size as warnings say so, and
-- each of these rows has its warning.
pub parse_lsof_field_output-unsized :
    (stdout : Bytes)
    → (unsized_count (parse_lsof_field_output stdout).0
        ≡ missing_count (parse_lsof_field_output stdout).1)
      × All (HasWarning (parse_lsof_field_output stdout).1) (parse_lsof_field_output stdout).0
unfolding parse_lsof_field_output
parse_lsof_field_output-unsized stdout =
    (flush_lsof_record-IsCounted (handle_fields (split_on 0 stdout) initial) (
      handle_fields-IsCounted (split_on 0 stdout) initial
        (record { flag = refl; counts = (refl, tt) }))).counts
