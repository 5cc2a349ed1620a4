-- ===== src/Scanner/Turns.antt =====
-- The loop of collect/scanner.py ends: each turn uses up a part of what the file system can still
-- answer.
use watchdirs.Prelude.{
  ℕ, suc, zero, ◌+◌, ◌≤◌, ◌<◌, ◌≡◌, refl, true, false, Option, none, some, List, [], ◌∷◌, inl, inr,
  if◌then◌else◌, if-both, sum_of, sum_of-sorted, Bool-cases, arith,
}
use watchdirs.Prelude.Bytes.{Bytes}
use watchdirs.Model.{MountInfo, MountDecision, ScanError, Message}
use watchdirs.Scanner.Files.{
  Stat, StatResult, Node, Listing, Entries, to_list, path_lt, sorted_entries, is_directory,
}
use watchdirs.Scanner.Descend.{InodeKey, EntryDiskUsage}
use watchdirs.Scanner.Rows.{Frame, merge_child, add_usage}
use watchdirs.Scanner.Machine.{
  ScanSetup, ScanState, initialize_failed, list_frame, initialize_frame, push_skipped,
  count_directory,
}
use watchdirs.Scanner.Steps.{
  skip_directory, enter_directory, process_directory_entry, record_file, process_file_entry,
  process_excluded, process_stat, process_frame_entry, finish_frame, next_entry, step_frame,
  step_stack, is_empty, is_done, scan_stack,
}
use watchdirs.Scanner.Root.{listing_turns, entries_turns, node_turns}

abbrev entry_turns : (Bytes × Node) → ℕ
entry_turns e = node_turns e.1

-- the turns that a frame can still take
abbrev frame_turns : Frame → ℕ
frame_turns f =
    if f.initialized then suc (sum_of entry_turns f.entries) else listing_turns f.listing

abbrev pub stack_turns : List Frame → ℕ
stack_turns stack = sum_of frame_turns stack

pub listing_turns-pos : (l : Listing) → 0 < listing_turns l
unfolding listing_turns
listing_turns-pos (Listing.unreadable e) = omega arith
listing_turns-pos (Listing.readable entries) = omega arith

entries_turns-to_list : (es : Entries) → sum_of entry_turns (to_list es) ≡ entries_turns es
unfolding listing_turns
entries_turns-to_list Entries.nil = refl
entries_turns-to_list (Entries.cons path entry es) = omega (arith, entries_turns-to_list es)

sorted_entries-turns : (es : Entries) → sum_of entry_turns (sorted_entries es) ≡ entries_turns es
unfolding sorted_entries
sorted_entries-turns es =
    omega (arith, sum_of-sorted path_lt entry_turns (to_list es), entries_turns-to_list es)

initialize_failed-turns :
    (setup : ScanSetup) (s : ScanState) (f : Frame) (rest : List Frame) (e : ScanError)
    → stack_turns (initialize_failed setup s f rest e).stack ≤ stack_turns rest
unfolding initialize_failed merge_child
initialize_failed-turns setup s f [] e = omega arith
initialize_failed-turns setup s f (parent ∷ rest) e = omega arith

list_frame-turns :
    (setup : ScanSetup) (s : ScanState) (f : Frame) (rest : List Frame) (l : Listing)
    → stack_turns (list_frame setup s f rest l).stack < listing_turns l + stack_turns rest
unfolding list_frame listing_turns
list_frame-turns setup s f rest (Listing.unreadable e) =
    omega (arith, initialize_failed-turns setup s _ rest _)
list_frame-turns setup s f rest (Listing.readable es) = omega (arith, sorted_entries-turns es)

initialize_frame-turns :
    (setup : ScanSetup) (s : ScanState) (f : Frame) (rest : List Frame)
    → stack_turns (initialize_frame setup s f rest).stack
      < listing_turns f.listing + stack_turns rest
unfolding initialize_frame
initialize_frame-turns setup s f rest =
    if-both {A = ScanState} (λ t. stack_turns t.stack < listing_turns f.listing + stack_turns rest)
      (is_directory f.initial_stat.kind) (list_frame-turns setup s f rest f.listing)
      (omega (arith, listing_turns-pos f.listing, initialize_failed-turns setup s f rest _))

-- A turn that leaves the frame below its child, or the frame itself: what it takes is less than the
-- entry at hand and the frame past it.
push_skipped-turns :
    (s : ScanState) (f : Frame) (rest : List Frame) (path : Bytes) (reason : Message)
    → stack_turns (push_skipped s f rest path reason).stack ≡ frame_turns f + stack_turns rest
unfolding push_skipped merge_child
push_skipped-turns s f rest path reason = refl

skip_directory-turns :
    (setup : ScanSetup) (s : ScanState) (f : Frame) (rest : List Frame) (path : Bytes)
    (d : MountDecision) (n : ℕ)
    → stack_turns (skip_directory setup s f rest path d).stack
      ≤ n + (frame_turns f + stack_turns rest)
unfolding skip_directory push_skipped merge_child
skip_directory-turns setup s f rest path d n = ground arith

enter_directory-turns :
    (s : ScanState) (f : Frame) (rest : List Frame) (path : Bytes) (t : Stat) (l : Listing)
    (m : Option MountInfo)
    → stack_turns (enter_directory s f rest path t l m).stack
      ≤ listing_turns l + (frame_turns f + stack_turns rest)
unfolding enter_directory
enter_directory-turns s f rest path t l m = omega arith

process_directory_entry-turns :
    (setup : ScanSetup) (s : ScanState) (f : Frame) (rest : List Frame) (path : Bytes) (t : Stat)
    (l : Listing)
    → stack_turns (process_directory_entry setup s f rest path t l).stack
      ≤ listing_turns l + (frame_turns f + stack_turns rest)
unfolding process_directory_entry count_directory
process_directory_entry-turns setup s f rest path t l =
    let counted = count_directory setup f in
    if-both {A = ScanState}
      (λ u. stack_turns u.stack ≤ listing_turns l + (frame_turns counted + stack_turns rest)) _
      (enter_directory-turns s counted rest path t l _)
      (skip_directory-turns setup s counted rest path _ (listing_turns l))

record_file-turns :
    (setup : ScanSetup) (s : ScanState) (f : Frame) (rest : List Frame) (path : Bytes)
    (r : Option (EntryDiskUsage × List InodeKey))
    → stack_turns (record_file setup s f rest path r).stack ≤ frame_turns f + stack_turns rest
unfolding record_file add_usage
record_file-turns setup s f rest path none = ground arith
record_file-turns setup s f rest path (some (u, seen)) = ground arith

process_file_entry-turns :
    (setup : ScanSetup) (s : ScanState) (f : Frame) (rest : List Frame) (path : Bytes) (t : Stat)
    (n : ℕ)
    → stack_turns (process_file_entry setup s f rest path t).stack
      ≤ n + (frame_turns f + stack_turns rest)
unfolding process_file_entry
process_file_entry-turns setup s f rest path t n =
    omega (arith, record_file-turns setup s _ rest path _)

process_stat-turns :
    (setup : ScanSetup) (s : ScanState) (f : Frame) (rest : List Frame) (path : Bytes) (l : Listing)
    (r : StatResult)
    → stack_turns (process_stat setup s f rest path l r).stack
      ≤ listing_turns l + (frame_turns f + stack_turns rest)
unfolding process_stat
process_stat-turns setup s f rest path l (StatResult.stat_error e) = ground arith
process_stat-turns setup s f rest path l (StatResult.stat_ok t) =
    if-both {A = ScanState}
      (λ u. stack_turns u.stack ≤ listing_turns l + (frame_turns f + stack_turns rest)) _
      (process_directory_entry-turns setup s f rest path t l)
      (process_file_entry-turns setup s f rest path t (listing_turns l))

process_frame_entry-turns :
    (setup : ScanSetup) (s : ScanState) (f : Frame) (rest : List Frame) (path : Bytes) (n : Node)
    → stack_turns (process_frame_entry setup s f rest path n).stack
      < node_turns n + (frame_turns f + stack_turns rest)
unfolding process_frame_entry process_excluded push_skipped merge_child listing_turns
process_frame_entry-turns setup s f rest path (Node.node is_dir t l) =
    ground (arith, process_stat-turns setup s f rest path l t)

next_entry-turns :
    (setup : ScanSetup) (s : ScanState) (f : Frame) (rest : List Frame) (es : List (Bytes × Node))
    → f.initialized ≡ true
    → stack_turns (next_entry setup s f rest es).stack
      < suc (sum_of entry_turns es) + stack_turns rest
unfolding next_entry finish_frame merge_child
next_entry-turns setup s f [] [] h = omega arith
next_entry-turns setup s f (parent ∷ rest) [] h = omega arith
next_entry-turns setup s f rest ((path, n) ∷ es) h =
    ground (arith, process_frame_entry-turns setup s (record f { entries = es }) rest path n)

-- Each turn of the loop strictly lowers the turns that are left.
step_frame-turns :
    (setup : ScanSetup) (s : ScanState) (f : Frame) (rest : List Frame)
    → stack_turns (step_frame setup s f rest).stack < frame_turns f + stack_turns rest
unfolding step_frame
step_frame-turns setup s f rest =
    ground (arith, next_entry-turns setup s f rest f.entries, initialize_frame-turns setup s f rest)

step_stack-turns :
    (setup : ScanSetup) (s : ScanState) (stack : List Frame) (fuel : ℕ)
    → is_empty stack ≡ false
    → stack_turns stack ≤ suc fuel
    → stack_turns (step_stack setup s stack).stack ≤ fuel
unfolding step_stack
step_stack-turns setup s [] fuel e h = ground arith
step_stack-turns setup s (f ∷ rest) fuel e h = omega (arith, step_frame-turns setup s f rest)

frame_turns-pos : (f : Frame) → 0 < frame_turns f
frame_turns-pos f = ground (arith, listing_turns-pos f.listing)

no_turns-is_empty : (stack : List Frame) → stack_turns stack ≤ 0 → is_empty stack ≡ true
no_turns-is_empty [] h = refl
no_turns-is_empty (f ∷ rest) h = ground (arith, frame_turns-pos f)

-- With the turns of its stack for fuel, the loop ends as the `while` of the source does: with an
-- empty stack, or with a fatal result.
pub scan_stack-is_done :
    (setup : ScanSetup) (fuel : ℕ) (s : ScanState)
    → stack_turns s.stack ≤ fuel
    → is_done (scan_stack setup fuel s) ≡ true
unfolding scan_stack is_done
scan_stack-is_done setup zero s h = ground (arith, no_turns-is_empty s.stack h)
scan_stack-is_done setup (suc fuel) s h = elim (Bool-cases (is_done s)) [
  | inl e ↦ rw e e
  | inr e ↦ rw e (
      scan_stack-is_done setup fuel (step_stack setup s s.stack)
        (step_stack-turns setup s s.stack fuel (ground arith) h))
]
