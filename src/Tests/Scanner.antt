-- ===== src/Tests/Scanner.antt =====
-- The theorems about collect/scanner.py at a small tree.
use watchdirs.Prelude.{ℕ, ◌≡◌, refl, true, false, none, some, [], ◌∷◌, arith, inl, ◌⊎◌}
use watchdirs.Prelude.Bytes.{Bytes}
use watchdirs.Model.{OsErrorClass}
use watchdirs.Mounts.Classify.{default_policy}
use watchdirs.Scanner.Files.{FileKind, Stat, StatResult, Node, Listing, Entries}
use watchdirs.Scanner.Machine.{ScanSetup}
use watchdirs.Scanner.Steps.{scan_stack, is_done}
use watchdirs.Scanner.Root.{
  ScannerOptions, RootAnswers, scan_root, initial_state, setup_of, listing_turns,
}
use watchdirs.Scanner.Turns.{scan_stack-is_done}
use watchdirs.Scanner.Failed.{IsFailure, scan_root-outcome}
use watchdirs.Scanner.Scanned.{IsScannable, Scanned, scan_root-Scanned}

abbrev stat_of : FileKind → ℕ → ℕ → Stat
stat_of kind ino links = record {
  kind = kind;
  st_size = 100;
  st_blocks = 8;
  st_dev = 1;
  st_ino = ino;
  st_nlink = links;
}

abbrev file : ℕ → Node
file ino =
    Node.node (some false) (StatResult.stat_ok (stat_of FileKind.regular ino 2))
      (Listing.readable Entries.nil)

abbrev folder : ℕ → Entries → Node
folder ino entries =
    Node.node (some true) (StatResult.stat_ok (stat_of FileKind.directory ino 2))
      (Listing.readable entries)

abbrev locked : Node
locked = Node.node (some true) (StatResult.stat_ok (stat_of FileKind.directory 9 2)) (
    Listing.unreadable
      (record { class = OsErrorClass.permission_error; strerror = "Permission denied" }))

-- "/r" with two names of one file, one of them in a folder, and a folder that cannot be read
abbrev root_path : Bytes
root_path = 0x2f ∷ 0x72 ∷ []

abbrev below : ℕ → Bytes
below c = 0x2f ∷ 0x72 ∷ 0x2f ∷ c ∷ []

abbrev tree : Entries
tree = Entries.cons (below 0x62) (file 7) (
    Entries.cons (below 0x61)
      (folder 8 (Entries.cons (0x2f ∷ 0x72 ∷ 0x2f ∷ 0x61 ∷ 0x2f ∷ 0x63 ∷ []) (file 7) Entries.nil))
      (Entries.cons (below 0x64) locked Entries.nil))

abbrev options : ScannerOptions
options = record {
  root = root_path;
  exclude_paths = [];
  mounts = [];
  mount_policy = default_policy;
  collapse_policy = none;
  record_skipped = true;
  hardlink_dedup_max_entries = 10;
}

abbrev answers : RootAnswers
answers = record {
  component_is_symlink = false ∷ [];
  root_stat = StatResult.stat_ok (stat_of FileKind.directory 5 4);
  listing = Listing.readable tree;
}

abbrev tree_IsScannable : IsScannable options answers
tree_IsScannable = record {
  no_link = refl;
  root_stat = stat_of FileKind.directory 5 4;
  stat = refl;
  directory = refl;
  mounted = inl refl;
  entries = tree;
  listing = refl;
}

scan_root_example : Scanned options.root options.collapse_policy (scan_root options answers)
scan_root_example = scan_root-Scanned options answers tree_IsScannable

abbrev setup : ScanSetup
setup = setup_of options (stat_of FileKind.directory 5 4) none

scan_stack_example :
    is_done (scan_stack setup 13 (initial_state setup (Listing.readable tree))) ≡ true
unfolding initial_state listing_turns
scan_stack_example =
    scan_stack-is_done setup 13 (initial_state setup (Listing.readable tree)) (omega arith)

-- a root that is on none of the mounts
abbrev unmounted : ScannerOptions
unmounted = record options {
  mounts =
      record {
        mount_id = 1;
        parent_id = 0;
        major_minor = "8:1";
        root = 0x2f ∷ [];
        mount_point = 0x2f ∷ 0x78 ∷ [];
        options = [];
        filesystem_type = "ext4";
        mount_source = "/dev/sda1";
        super_options = [];
      }
      ∷ [];
}

scan_root-outcome_example : IsFailure (scan_root unmounted answers) ⊎ IsScannable unmounted answers
scan_root-outcome_example = scan_root-outcome unmounted answers
