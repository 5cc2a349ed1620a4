-- ===== src/Scanner/Failed.antt =====
-- When `scan_root` of collect/scanner.py fails.
use watchdirs.Prelude.{
  ℕ, zero, suc, ◌≡◌, ◌≤◌, refl, ◌⊎◌, inl, inr, Bool, true, false, Option, none, some, List, [], ◌∷◌,
  any, arith, Bool-cases,
}
use watchdirs.Prelude.Bytes.{Bytes}
use watchdirs.Model.{SnapshotStatus, MountInfo, OsError, ScanError, ScanResult, Message}
use watchdirs.Mounts.Find.{find_mount_for_path}
use watchdirs.Mounts.Classify.{classify_mount}
use watchdirs.Scanner.Files.{Stat, StatResult, FileKind, Listing, Entries, is_directory, is_symlink}
use watchdirs.Scanner.Machine.{
  ScanSetup, ScanState, scan_failure_result, initialize_failed, list_frame, initialize_frame,
}
use watchdirs.Scanner.Steps.{scan_stack, is_done, step_stack, step_frame}
use watchdirs.Scanner.Root.{
  ScannerOptions, RootAnswers, setup_of, prepare_mount, prepare_stat, prepare_scan_root,
  initial_state, result_of, listing_turns, scan_from, scan_prepared, scan_root,
}
use watchdirs.Scanner.Turns.{listing_turns-pos}
use watchdirs.Scanner.Scanned.{IsScannable}

-- A result with no rows and an error.
pub record IsFailure (r : ScanResult) : Type 0 where
  pub status : r.status ≡ SnapshotStatus.failed
  pub rows : r.rows ≡ []
  pub row_count : r.row_count ≡ 0
  pub message : Message
  pub fatal_error : r.fatal_error ≡ some message

scan_failure_result-IsFailure :
    (root : Bytes) (e : ScanError) (errors : List ScanError) (n : ℕ)
    → IsFailure (scan_failure_result root e [] errors n)
unfolding scan_failure_result
scan_failure_result-IsFailure root e errors n = record {
  status = refl;
  rows = refl;
  row_count = refl;
  message = e.message;
  fatal_error = refl;
}

scan_stack_done :
    (setup : ScanSetup) (fuel : ℕ) (s : ScanState) → is_done s ≡ true → scan_stack setup fuel s ≡ s
unfolding scan_stack
scan_stack_done setup zero s h = refl
scan_stack_done setup (suc fuel) s h = rw h refl

-- a state that has ended with a failure
abbrev Failing : ScanState → Type 0
Failing s = (r : ScanResult) × (s.fatal_result ≡ some r) × IsFailure r

-- The result of a first turn that fails.
failed_turn :
    (setup : ScanSetup) (l : Listing) (fuel : ℕ)
    → 1 ≤ fuel
    → Failing (step_stack setup (initial_state setup l) (initial_state setup l).stack)
    → Failing (scan_stack setup fuel (initial_state setup l))
unfolding scan_stack is_done initial_state
failed_turn setup l zero pos h = absurd (omega arith)
failed_turn setup l (suc fuel) pos h =
    let s = step_stack setup (initial_state setup l) (initial_state setup l).stack in
    rw (scan_stack_done setup fuel s (ground (arith, h.1))) h

scan_from-IsFailure :
    (setup : ScanSetup) (l : Listing)
    → Failing (step_stack setup (initial_state setup l) (initial_state setup l).stack)
    → IsFailure (scan_from setup l)
unfolding scan_from result_of
scan_from-IsFailure setup l h =
    let (r, e, failure) = failed_turn setup l (listing_turns l) (listing_turns-pos l) h in
    rw (e, result_of) failure

unreadable-IsFailure :
    (setup : ScanSetup) (e : OsError)
    → is_directory setup.root_stat.kind ≡ true
    → IsFailure (scan_from setup (Listing.unreadable e))
unfolding step_stack step_frame initialize_frame list_frame initialize_failed initial_state
unreadable-IsFailure setup e directory =
    scan_from-IsFailure setup (Listing.unreadable e)
      (rw directory (_, refl, scan_failure_result-IsFailure _ _ _ _))

other_kind-IsFailure :
    (setup : ScanSetup) (l : Listing)
    → is_directory setup.root_stat.kind ≡ false
    → IsFailure (scan_from setup l)
unfolding step_stack step_frame initialize_frame initialize_failed initial_state
other_kind-IsFailure setup l other =
    scan_from-IsFailure setup l (rw other (_, refl, scan_failure_result-IsFailure _ _ _ _))

-- The scan after `prepare_mount` fails, or the mount is fit.
mount-outcome :
    (options : ScannerOptions) (t : Stat) (l : Listing) (mounts : List MountInfo)
    (found : Option MountInfo)
    → IsFailure (scan_prepared l (prepare_mount options t mounts found))
      ⊎ ((m : Option MountInfo) × (prepare_mount options t mounts found
            ≡ inr (setup_of options t m))
          × ((mounts ≡ [])
              ⊎ ((k : MountInfo) × (found ≡ some k)
                  × ((classify_mount (some k) options.mount_policy).include ≡ true))))
unfolding prepare_mount
mount-outcome options t l [] found = inr (none, refl, inl refl)
mount-outcome options t l (k ∷ ks) none = inl (scan_failure_result-IsFailure _ _ _ _)
mount-outcome options t l (k ∷ ks) (some m) =
    elim (Bool-cases (classify_mount (some m) options.mount_policy).include) [
      | inl yes_ ↦ inr (some m, rw yes_ refl, inr (m, refl, yes_))
      | inr no_ ↦ inl (rw no_ (scan_failure_result-IsFailure _ _ _ _))
    ]

is_directory-eq : (k : FileKind) → is_directory k ≡ true → k ≡ FileKind.directory
is_directory-eq FileKind.directory h = refl
is_directory-eq FileKind.regular h = ground arith
is_directory-eq FileKind.symlink h = ground arith
is_directory-eq FileKind.other h = ground arith

-- after the mount of the root is found fit
opened-outcome :
    (options : ScannerOptions) (t : Stat) (m : Option MountInfo) (l : Listing)
    → IsFailure (scan_from (setup_of options t m) l)
      ⊎ ((t.kind ≡ FileKind.directory) × ((es : Entries) × (l ≡ Listing.readable es)))
opened-outcome options t m l = elim (Bool-cases (is_directory t.kind)) [
  | inr other ↦ inl (other_kind-IsFailure (setup_of options t m) l other)
  | inl directory ↦
      elim l
        as (λ k.
          IsFailure (scan_from (setup_of options t m) k)
          ⊎ ((t.kind ≡ FileKind.directory) × ((es : Entries) × (k ≡ Listing.readable es)))) [
            | Listing.unreadable e ↦ inl (unreadable-IsFailure (setup_of options t m) e directory)
            | Listing.readable es ↦ inr (is_directory-eq t.kind directory, (es, refl))
          ]
]

stat-outcome :
    (options : ScannerOptions) (links : List Bool) (r : StatResult) (l : Listing)
    → any (λ link. link) links ≡ false
    → IsFailure (scan_prepared l (prepare_stat options r))
      ⊎ IsScannable options (record { component_is_symlink = links; root_stat = r; listing = l })
unfolding prepare_stat
stat-outcome options links (StatResult.stat_error e) l no_link =
    inl (scan_failure_result-IsFailure _ _ _ _)
stat-outcome options links (StatResult.stat_ok t) l no_link =
    elim (Bool-cases (is_symlink t.kind)) [
      | inl link ↦ inl (rw link (scan_failure_result-IsFailure _ _ _ _))
      | inr other ↦
          elim (mount-outcome options t l options.mounts
            (find_mount_for_path options.root options.mounts)) [
              | inl failure ↦ inl (rw other failure)
              | inr (m, prepared, mounted) ↦ elim (opened-outcome options t m l) [
                | inl failure ↦ inl (rw (other, prepared) failure)
                | inr (directory, (es, listing)) ↦ inr (record {
                  no_link = no_link;
                  root_stat = t;
                  stat = refl;
                  directory = directory;
                  mounted = mounted;
                  entries = es;
                  listing = listing;
                })
              ]
            ]
    ]

-- A scan fails, with status FAILED, an error and no row, or its root can be scanned: no symbolic link
-- leads to it, it is a directory that can be listed, and it lies on a mount that the policy includes
-- or there are no mounts at all.
pub scan_root-outcome :
    (options : ScannerOptions) (answers : RootAnswers)
    → IsFailure (scan_root options answers) ⊎ IsScannable options answers
unfolding scan_root prepare_scan_root
scan_root-outcome options answers =
    elim (Bool-cases (any (λ link. link) answers.component_is_symlink)) [
      | inl link ↦ inl (rw link (scan_failure_result-IsFailure _ _ _ _))
      | inr no_link ↦
          elim (stat-outcome options answers.component_is_symlink answers.root_stat answers.listing
            no_link) [ inl failure ↦ inl (rw no_link failure) | inr scannable ↦ inr scannable ]
    ]
