-- ===== src/Scanner/Files.antt =====
-- What the scanner sees of a file system: the results of `stat`, `is_dir` and `scandir` below a
-- root, as a tree. An entry comes with its full path, in the order in which `scandir` gives it.
use watchdirs.Prelude.{ℕ, Bool, true, false, Option, List, [], ◌∷◌, sorted}
use watchdirs.Prelude.Bytes.{Bytes, bytes_lt}
use watchdirs.Model.{OsError}

-- the file type of `st_mode`
pub data FileKind : Type 0 where
  regular directory symlink other : FileKind

-- the fields of `os.stat_result` that the scanner reads
pub record Stat : Type 0 where
  pub kind : FileKind
  pub st_size : ℕ
  pub st_blocks : ℕ
  pub st_dev : ℕ
  pub st_ino : ℕ
  pub st_nlink : ℕ

pub data StatResult : Type 0 where
  stat_ok : Stat → StatResult
  stat_error : OsError → StatResult

mutual
  -- an entry: `is_dir` (none: it raises), `stat`, and `scandir` of its path
  pub data Node : Type 0 where
    node : Option Bool → StatResult → Listing → Node

  pub data Listing : Type 0 where
    unreadable : OsError → Listing
    readable : Entries → Listing

  pub data Entries : Type 0 where
    nil : Entries
    cons : Bytes → Node → Entries → Entries

abbrev pub to_list : Entries → List (Bytes × Node)
to_list nil = []
to_list (cons path entry entries) = (path, entry) ∷ to_list entries

abbrev pub is_directory : FileKind → Bool
is_directory FileKind.directory = true
is_directory _ = false

abbrev pub is_regular : FileKind → Bool
is_regular FileKind.regular = true
is_regular _ = false

abbrev pub is_symlink : FileKind → Bool
is_symlink FileKind.symlink = true
is_symlink _ = false

abbrev pub path_lt : (Bytes × Node) → (Bytes × Node) → Bool
path_lt a b = bytes_lt a.0 b.0

-- `_sorted_entries`, of what `scandir` gives
unfoldable pub sorted_entries : Entries → List (Bytes × Node)
sorted_entries entries = sorted path_lt (to_list entries)
