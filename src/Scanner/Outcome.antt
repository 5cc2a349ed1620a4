-- ===== src/Scanner/Outcome.antt =====
-- Every turn of the loop of collect/scanner.py keeps the invariant.
use watchdirs.Prelude.{
  ℕ, zero, suc, ◌≡◌, refl, Bool, true, false, Option, none, some, List, [], ◌∷◌, if-both, if-cases,
  length, arith, Bool-cases, inl, inr,
}
use watchdirs.Prelude.Bytes.{Bytes}
use watchdirs.Model.{ErrorKind, CollapsePolicy, Message}
use watchdirs.Scanner.Policy.{scan_error, initial_collapse_reason}
use watchdirs.Scanner.Files.{Listing, Node, sorted_entries, is_directory}
use watchdirs.Scanner.Rows.{Frame}
use watchdirs.Scanner.Machine.{
  ScanSetup, ScanState, initialize_failed, list_frame, initialize_frame, initialized_frame,
  error_message, collapse_never_paths,
}
use watchdirs.Scanner.Steps.{next_entry, step_frame, step_stack, is_done, is_empty, scan_stack}
use watchdirs.Scanner.Preserve.{has_failure-append_true, scan_error-failure}
use watchdirs.Scanner.PreserveEntries.{process_frame_entry-Kept}
use watchdirs.Scanner.Loop.{finish_frame-Kept, initialize_failed-Kept}
use watchdirs.Scanner.Running.{Running, Holds, Kept, Change, Running-Change}

pub initial-no_reason :
    (path : Bytes) (policy : Option CollapsePolicy) (never : List Bytes)
    → policy ≡ none
    → initial_collapse_reason path policy never ≡ none
unfolding initial_collapse_reason
initial-no_reason path none never e = refl
initial-no_reason path (some policy) never e = ground arith

-- A frame that is opened, whether or not its listing is read, has counted nothing more.
opened-Change :
    (setup : ScanSetup) (s : ScanState) (f : Frame) (entries : List (Bytes × Node)) (start : ℕ)
    (opened : Bool) (stack : List Frame)
    → f.initialized ≡ false
    → Change setup s
        (record s { stack = stack })
        f
        (record (initialized_frame setup start f entries) { initialized = opened })
opened-Change setup s f entries start opened stack closed = record {
  not_fatal = refl;
  root = λ r. ground arith;
  hardlinks = refl;
  rows = refl;
  reason = λ e r. initial-no_reason f.path_raw setup.collapse_policy (collapse_never_paths setup) e;
  failure = λ e. e;
  frame = λ c. c;
  counted = λ c. c;
}

list_frame-Kept :
    (setup : ScanSetup) (s : ScanState) (f parent : Frame) (rest : List Frame) (l : Listing)
    → f.initialized ≡ false
    → Running setup s (f ∷ parent ∷ rest)
    → Kept setup (list_frame setup s f (parent ∷ rest) l)
unfolding list_frame
list_frame-Kept setup s f parent rest (Listing.unreadable e) closed h =
    initialize_failed-Kept setup s _ parent rest (scan_error f.path_raw e)
      (Running-Change setup s s f _ (parent ∷ rest) h
        (opened-Change setup s f [] (length s.rows) false s.stack closed))
      (scan_error-failure s.had_failure s.errors f.path_raw e h.failure)
list_frame-Kept setup s f parent rest (Listing.readable entries) closed h =
    Running-Change setup s _ f _ (parent ∷ rest) h
      (opened-Change setup s f (sorted_entries entries) (length s.rows) true _ closed)

initialize_frame-Kept :
    (setup : ScanSetup) (s : ScanState) (f parent : Frame) (rest : List Frame)
    → f.initialized ≡ false
    → Running setup s (f ∷ parent ∷ rest)
    → Kept setup (initialize_frame setup s f (parent ∷ rest))
unfolding initialize_frame
initialize_frame-Kept setup s f parent rest closed h =
    let error =
      error_message f.path_raw ErrorKind.not_a_directory (Message.not_a_directory_at f.path_raw) in
    if-both {A = ScanState} (Kept setup) (is_directory f.initial_stat.kind)
      {x = list_frame setup s f (parent ∷ rest) f.listing}
      {y = initialize_failed setup s f (parent ∷ rest) error}
      (list_frame-Kept setup s f parent rest f.listing closed h)
      (initialize_failed-Kept setup s f parent rest error h
        (ground (arith, has_failure-append_true s.errors error)))

next_entry-Kept :
    (setup : ScanSetup) (s : ScanState) (f : Frame) (rest : List Frame) (es : List (Bytes × Node))
    → Running setup s (f ∷ rest)
    → Kept setup (next_entry setup s f rest es)
unfolding next_entry
next_entry-Kept setup s f rest [] h = finish_frame-Kept setup s f rest h
next_entry-Kept setup s f rest ((path, n) ∷ es) h =
    process_frame_entry-Kept setup s (record f { entries = es }) rest path n
      (Running-Change setup s s f _ rest h (record {
        not_fatal = refl;
        root = λ r. r;
        hardlinks = refl;
        rows = refl;
        reason = λ e r. r;
        failure = λ e. e;
        frame = λ c. c;
        counted = λ c. c;
      }))

-- A turn keeps the invariant: only the root's frame could fail with nothing below, and it is open.
step_frame-Kept :
    (setup : ScanSetup) (s : ScanState) (f : Frame) (rest : List Frame)
    → Running setup s (f ∷ rest)
    → Kept setup (step_frame setup s f rest)
unfolding step_frame
step_frame-Kept setup s f [] h =
    if-cases {A = ScanState} (Kept setup) f.initialized {x = next_entry setup s f [] f.entries}
      {y = initialize_frame setup s f []} (λ e. next_entry-Kept setup s f [] f.entries h)
      (λ e. ground (arith, h.rooted))
step_frame-Kept setup s f (parent ∷ rest) h =
    if-cases {A = ScanState} (Kept setup) f.initialized
      {x = next_entry setup s f (parent ∷ rest) f.entries}
      {y = initialize_frame setup s f (parent ∷ rest)}
      (λ e. next_entry-Kept setup s f (parent ∷ rest) f.entries h)
      (λ e. initialize_frame-Kept setup s f parent rest e h)

step_stack-Kept :
    (setup : ScanSetup) (s : ScanState) (stack : List Frame)
    → is_empty stack ≡ false
    → Holds setup s stack
    → Kept setup (step_stack setup s stack)
unfolding step_stack
step_stack-Kept setup s [] e h = ground arith
step_stack-Kept setup s (f ∷ rest) e h = step_frame-Kept setup s f rest h

-- The loop keeps the invariant.
pub scan_stack-Kept :
    (setup : ScanSetup) (fuel : ℕ) (s : ScanState)
    → Kept setup s
    → Kept setup (scan_stack setup fuel s)
unfolding scan_stack is_done
scan_stack-Kept setup zero s h = h
scan_stack-Kept setup (suc fuel) s h = elim (Bool-cases (is_done s)) [
  | inl e ↦ rw e h
  | inr e ↦ rw e (
      scan_stack-Kept setup fuel (step_stack setup s s.stack)
        (step_stack-Kept setup s s.stack (ground arith) h))
]
