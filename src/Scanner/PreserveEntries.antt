-- ===== src/Scanner/PreserveEntries.antt =====
-- The handlers of entries of collect/scanner.py keep the invariant of the loop.
use watchdirs.Prelude.{
  ℕ, ◌+◌, ◌≤◌, refl, ◌∙◌, Bool, true, false, Option, none, some, List, ◌∷◌, if-both, any, length,
  sym, arith, leb, Bool-cases, inl, inr,
}
use watchdirs.Prelude.Bytes.{Bytes}
use watchdirs.Model.{ErrorKind, Message}
use watchdirs.Scanner.Policy.{is_excluded}
use watchdirs.Scanner.Descend.{
  InodeKey, inode_key, same_inode, EntryDiskUsage, disk_bytes_for_entry,
}
use watchdirs.Scanner.Files.{Stat, StatResult, Listing, Node, is_directory, is_regular}
use watchdirs.Scanner.Rows.{Frame, record_folded_evidence, add_usage}
use watchdirs.Scanner.Machine.{ScanSetup, ScanState}
use watchdirs.Scanner.Steps.{
  process_directory_entry, record_file, process_file_entry, process_excluded, process_stat,
  process_frame_entry, note_skipped,
}
use watchdirs.Scanner.Running.{Running, Kept, Running-Change}
use watchdirs.Scanner.Preserve.{
  has_failure-append_true, scan_error-failure, note_skipped-failure, push_skipped-Kept,
  process_directory_entry-Kept,
}

-- What a file adds: at most one hard link, which the scan counts too, and a duplicate only with it.
pub record Usage (u : EntryDiskUsage) : Type 0 where
  pub duplicates : u.hardlink_duplicate_count ≤ u.hardlink_file_count
  pub links : u.hardlink_file_count ≤ 1

abbrev FileResult : Option (EntryDiskUsage × List InodeKey) → Type 0
FileResult none = Unit
FileResult (some (u, seen)) = Usage u

disk_bytes_for_entry-FileResult :
    (t : Stat) (seen : List InodeKey) (n : ℕ) → FileResult (disk_bytes_for_entry t seen n)
unfolding disk_bytes_for_entry
disk_bytes_for_entry-FileResult t seen n = elim (Bool-cases (is_regular t.kind)) [
  | inr e ↦ rw e (omega arith)
  | inl e ↦ elim (Bool-cases (leb t.st_nlink 1)) [
    | inl single ↦ rw (e, single) (omega arith)
    | inr linked ↦ elim (Bool-cases (any (same_inode (inode_key t)) seen)) [
      | inl known ↦ rw (e, linked, known) (omega arith)
      | inr new ↦ elim (Bool-cases (leb n (length seen))) [
        | inl full ↦ rw (e, linked, new, full) tt
        | inr room ↦ rw (e, linked, new, room) (omega arith)
      ]
    ]
  ]
]

record_file-Kept :
    (setup : ScanSetup) (s : ScanState) (f : Frame) (rest : List Frame) (path : Bytes)
    (r : Option (EntryDiskUsage × List InodeKey)) (apparent : ℕ)
    → Running setup s (f ∷ rest)
    → FileResult r
    → Kept setup (
        record_file setup s
          (record f { file_count = f.file_count + 1; apparent_bytes = apparent })
          rest
          path
          r)
unfolding record_file add_usage
record_file-Kept setup s f rest path none apparent h r =
    Running-Change setup s _ f _ rest h (record {
      not_fatal = refl;
      root = λ r. r;
      hardlinks = refl;
      rows = refl;
      reason = λ e r. r;
      failure = λ e. has_failure-append_true s.errors _ refl;
      frame = λ c. omega arith;
      counted = λ c. c;
    })
record_file-Kept setup s f rest path (some (u, seen)) apparent h r =
    Running-Change setup s _ f _ rest h (record {
      not_fatal = refl;
      root = λ r. r;
      hardlinks = ground (arith, r.links, r.duplicates);
      rows = refl;
      reason = λ e r. r;
      failure = λ e. e;
      frame = λ c. omega (arith, r.links, r.duplicates);
      counted = λ c. c;
    })

process_file_entry-Kept :
    (setup : ScanSetup) (s : ScanState) (f : Frame) (rest : List Frame) (path : Bytes) (t : Stat)
    → Running setup s (f ∷ rest)
    → Kept setup (process_file_entry setup s f rest path t)
unfolding process_file_entry
process_file_entry-Kept setup s f rest path t h =
    record_file-Kept setup s f rest path _ _ h (disk_bytes_for_entry-FileResult t s.seen_inodes _)

process_excluded-Kept :
    (setup : ScanSetup) (s : ScanState) (f : Frame) (rest : List Frame) (path : Bytes)
    (is_dir : Option Bool)
    → Running setup s (f ∷ rest)
    → Kept setup (process_excluded setup s f rest path is_dir)
unfolding process_excluded
process_excluded-Kept setup s f rest path is_dir h =
    let f' : Frame = record_folded_evidence ErrorKind.excluded f in
    let message = Message.excluded_by_configuration in
    let t : ScanState = record s {
      errors = note_skipped setup path ErrorKind.excluded message s.errors;
      stack = f' ∷ rest;
    } in
    let noted : Running setup t t.stack = Running-Change setup s t f f' rest h (record {
      not_fatal = refl;
      root = λ r. r;
      hardlinks = refl;
      rows = refl;
      reason = λ e r. r;
      failure =
          λ e. e ∙ sym (note_skipped-failure setup path ErrorKind.excluded message s.errors refl);
      frame = λ c. c;
      counted = λ c. c;
    }) in
    elim is_dir as (λ k. Kept setup (process_excluded setup s f rest path k)) [
      | none ↦ noted
      | some true ↦ push_skipped-Kept setup t f' rest path message noted
      | some false ↦ noted
    ]

process_stat-Kept :
    (setup : ScanSetup) (s : ScanState) (f : Frame) (rest : List Frame) (path : Bytes) (l : Listing)
    (r : StatResult)
    → Running setup s (f ∷ rest)
    → Kept setup (process_stat setup s f rest path l r)
unfolding process_stat
process_stat-Kept setup s f rest path l (StatResult.stat_error e) h =
    Running-Change setup s _ f _ rest h (record {
      not_fatal = refl;
      root = λ r. r;
      hardlinks = refl;
      rows = refl;
      reason = λ e r. r;
      failure = scan_error-failure s.had_failure s.errors path e;
      frame = λ c. c;
      counted = λ c. c;
    })
process_stat-Kept setup s f rest path l (StatResult.stat_ok t) h =
    if-both {A = ScanState} (Kept setup) (is_directory t.kind)
      {x = process_directory_entry setup s f rest path t l}
      {y = process_file_entry setup s f rest path t}
      (process_directory_entry-Kept setup s f rest path t l h)
      (process_file_entry-Kept setup s f rest path t h)

pub process_frame_entry-Kept :
    (setup : ScanSetup) (s : ScanState) (f : Frame) (rest : List Frame) (path : Bytes) (n : Node)
    → Running setup s (f ∷ rest)
    → Kept setup (process_frame_entry setup s f rest path n)
unfolding process_frame_entry
process_frame_entry-Kept setup s f rest path (Node.node is_dir t l) h =
    if-both {A = ScanState} (Kept setup) (is_excluded path setup.exclude_paths)
      {x = process_excluded setup s f rest path is_dir} {y = process_stat setup s f rest path l t}
      (process_excluded-Kept setup s f rest path is_dir h)
      (process_stat-Kept setup s f rest path l t h)
