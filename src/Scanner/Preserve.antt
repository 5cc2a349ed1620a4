-- ===== src/Scanner/Preserve.antt =====
-- The handlers of collect/scanner.py keep the invariant of the loop.
use watchdirs.Prelude.{
  ◌≡◌, refl, ◌∙◌, Bool, true, false, ◌||◌, Option, List, [], ◌∷◌, ◌++◌, if-both, any-append, All,
  All-append, length-append, sym, arith,
}
use watchdirs.Prelude.Bytes.{Bytes}
use watchdirs.Mounts.Classify.{is_default_virtual_filesystem}
use watchdirs.Mounts.Find.{find_mount_for_path}
use watchdirs.Model.{
  ErrorKind, ScanError, OsError, OsErrorClass, DirectoryAggregate, Message, MountDecision,
  MountInfo,
}
use watchdirs.Scanner.Policy.{is_completeness_kind, error_kind, scan_error}
use watchdirs.Scanner.Descend.{should_descend}
use watchdirs.Scanner.Files.{Stat, Listing}
use watchdirs.Scanner.Rows.{Frame, record_folded_evidence, merge_child}
use watchdirs.Scanner.Machine.{
  ScanSetup, ScanState, push_skipped, count_directory, descend_context, error_message,
}
use watchdirs.Scanner.Steps.{
  child_frame, enter_directory, skip_directory, process_directory_entry, note_skipped,
}
use watchdirs.Scanner.Running.{
  is_failure, has_failure, IsCounted, Running, Kept, Change, Running-Change, Running-push,
}

pub has_failure-append :
    (xs : List ScanError) (e : ScanError)
    → has_failure (xs ++ (e ∷ [])) ≡ (has_failure xs || is_failure e.kind)
has_failure-append xs e = ground (arith, any-append (λ e. is_failure e.kind) xs (e ∷ []))

pub append-IsCounted :
    (rows : List DirectoryAggregate) (row : DirectoryAggregate)
    → IsCounted row
    → All IsCounted rows
    → All IsCounted (rows ++ (row ∷ []))
append-IsCounted rows row h hs = All-append IsCounted rows (row ∷ []) hs (h, tt)

pub has_failure-append_true :
    (xs : List ScanError) (e : ScanError)
    → is_failure e.kind ≡ true
    → true ≡ has_failure (xs ++ (e ∷ []))
has_failure-append_true xs e h = ground (arith, has_failure-append xs e)

-- An error of the file system is a failure exactly when it counts against completeness.
pub error_kind-is_failure :
    (c : OsErrorClass) → is_failure (error_kind c) ≡ is_completeness_kind (error_kind c)
unfolding error_kind
error_kind-is_failure OsErrorClass.permission_error = refl
error_kind-is_failure OsErrorClass.file_not_found_error = refl
error_kind-is_failure OsErrorClass.not_a_directory_error = refl
error_kind-is_failure (OsErrorClass.other_error name) = refl

-- Recording such an error keeps what `had_failure` means.
pub scan_error-failure :
    (had : Bool) (xs : List ScanError) (path : Bytes) (e : OsError)
    → had ≡ has_failure xs
    → (had || is_completeness_kind (scan_error path e).kind)
      ≡ has_failure (xs ++ (scan_error path e ∷ []))
unfolding scan_error
scan_error-failure had xs path e h =
    ground (arith, error_kind-is_failure e.class, has_failure-append xs (scan_error path e))

pub note_skipped-failure :
    (setup : ScanSetup) (path : Bytes) (kind : ErrorKind) (m : Message) (errors : List ScanError)
    → is_failure kind ≡ false
    → has_failure (note_skipped setup path kind m errors) ≡ has_failure errors
note_skipped-failure setup path kind m errors h =
    ground (arith, has_failure-append errors (error_message path kind m))

pub push_skipped-Kept :
    (setup : ScanSetup) (s : ScanState) (f : Frame) (rest : List Frame) (path : Bytes) (m : Message)
    → Running setup s (f ∷ rest)
    → Kept setup (push_skipped s f rest path m)
unfolding push_skipped merge_child
push_skipped-Kept setup s f rest path m h =
    Running-Change setup s (push_skipped s f rest path m) f _ rest h (record {
      not_fatal = refl;
      root = λ r. r;
      hardlinks = omega arith;
      rows = omega (arith, length-append s.rows (_ ∷ []));
      reason = λ e r. r;
      failure = λ h. h;
      frame = λ c. omega arith;
      counted = append-IsCounted s.rows _ (omega arith, omega arith);
    })

skip_directory-Kept :
    (setup : ScanSetup) (s : ScanState) (f : Frame) (rest : List Frame) (path : Bytes)
    (d : MountDecision)
    → Running setup s (f ∷ rest)
    → Kept setup (skip_directory setup s f rest path d)
unfolding skip_directory
skip_directory-Kept setup s f rest path d h =
    let f' : Frame = record_folded_evidence ErrorKind.mount_skipped f in
    let t : ScanState = record s {
      errors = note_skipped setup path ErrorKind.mount_skipped d.reason s.errors;
      stack = f' ∷ rest;
    } in
    let noted : Running setup t t.stack = Running-Change setup s t f _ rest h (record {
      not_fatal = refl;
      root = λ r. r;
      hardlinks = refl;
      rows = refl;
      reason = λ e r. r;
      failure = λ e.
          e ∙ sym (note_skipped-failure setup path ErrorKind.mount_skipped d.reason s.errors refl);
      frame = λ c. c;
      counted = λ c. c;
    }) in
    let kept = push_skipped-Kept setup t f' rest path d.reason noted in
    if-both {A = ScanState} (Kept setup) (is_default_virtual_filesystem d.filesystem_type) {x = t}
      {y = push_skipped t f' rest path d.reason} noted kept

enter_directory-Kept :
    (setup : ScanSetup) (s : ScanState) (f : Frame) (rest : List Frame) (path : Bytes) (t : Stat)
    (l : Listing) (m : Option MountInfo)
    → Running setup s (f ∷ rest)
    → Kept setup (enter_directory s f rest path t l m)
unfolding enter_directory
enter_directory-Kept setup s f rest path t l m h =
    Running-push setup s f (child_frame f path t l m) rest _ h refl refl refl
      (omega arith, omega arith)

-- Without a policy nothing collapses at the fan-out.
count_directory-Change :
    (setup : ScanSetup) (s : ScanState) (f : Frame) → Change setup s s f (count_directory setup f)
unfolding count_directory
count_directory-Change setup s f = record {
  not_fatal = refl;
  root = λ r. r;
  hardlinks = refl;
  rows = refl;
  reason = λ e r. ground arith;
  failure = λ e. e;
  frame = λ c. c;
  counted = λ c. c;
}

pub process_directory_entry-Kept :
    (setup : ScanSetup) (s : ScanState) (f : Frame) (rest : List Frame) (path : Bytes) (t : Stat)
    (l : Listing)
    → Running setup s (f ∷ rest)
    → Kept setup (process_directory_entry setup s f rest path t l)
unfolding process_directory_entry
process_directory_entry-Kept setup s f rest path t l h =
    let g = count_directory setup f in
    let m = find_mount_for_path path setup.mounts in
    let d = should_descend t m (descend_context setup g rest) in
    let counted = Running-Change setup s s f g rest h (count_directory-Change setup s f) in
    if-both {A = ScanState} (Kept setup) d.include {x = enter_directory s g rest path t l m}
      {y = skip_directory setup s g rest path d}
      (enter_directory-Kept setup s g rest path t l m counted)
      (skip_directory-Kept setup s g rest path d counted)
