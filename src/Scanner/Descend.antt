-- ===== src/Scanner/Descend.antt =====
-- What collect/scanner.py decides of an entry: what a file adds to the disk usage, and whether a
-- directory is entered.
use watchdirs.Prelude.{
  ℕ, ◌*◌, String, Bool, true, false, ◌&&◌, ◌||◌, not, Option, none, some, List, ◌∷◌, leb, ◌==◌,
  if◌then◌else◌, any, length,
}
use watchdirs.Prelude.Bytes.{Bytes, bytes_eq}
use text.Mathlib.Text.{◌==◌ as str_eq}
use watchdirs.Model.{MountInfo, MountDecision, MountPolicy, Message}
use watchdirs.Mounts.Classify.{classify_mount}
use watchdirs.Scanner.Files.{Stat, is_regular, is_symlink}

-- `disk_bytes_from_stat` and `apparent_bytes_from_stat`
pub disk_bytes_from_stat : Stat → ℕ
disk_bytes_from_stat s = if is_regular s.kind || is_symlink s.kind then s.st_blocks * 512 else 0

pub apparent_bytes_from_stat : Stat → ℕ
apparent_bytes_from_stat s = if is_regular s.kind || is_symlink s.kind then s.st_size else 0

-- `inode_key`
abbrev pub InodeKey : Type 0
InodeKey = ℕ × ℕ

abbrev pub inode_key : Stat → InodeKey
inode_key s = (s.st_dev, s.st_ino)

abbrev pub same_inode : InodeKey → InodeKey → Bool
same_inode a b = a.0 == b.0 && a.1 == b.1

-- `_EntryDiskUsage`
pub record EntryDiskUsage : Type 0 where
  pub disk_bytes : ℕ
  pub hardlink_file_count : ℕ
  pub hardlink_duplicate_count : ℕ
  pub hardlink_duplicate_disk_bytes : ℕ
  pub hardlink_first_seen_disk_bytes : ℕ

abbrev pub plain_usage : ℕ → EntryDiskUsage
plain_usage n = record {
  disk_bytes = n;
  hardlink_file_count = 0;
  hardlink_duplicate_count = 0;
  hardlink_duplicate_disk_bytes = 0;
  hardlink_first_seen_disk_bytes = 0;
}

-- `_disk_bytes_for_entry`: the usage and the inodes seen, or none where the limit is exceeded
unfoldable pub disk_bytes_for_entry :
    Stat → List InodeKey → ℕ → Option (EntryDiskUsage × List InodeKey)
disk_bytes_for_entry s seen max_entries =
    if not (is_regular s.kind)
    then some (plain_usage (disk_bytes_from_stat s), seen)
    else if leb s.st_nlink 1
    then some (plain_usage (disk_bytes_from_stat s), seen)
    else if any (same_inode (inode_key s)) seen
    then some (
      record {
        disk_bytes = 0;
        hardlink_file_count = 1;
        hardlink_duplicate_count = 1;
        hardlink_duplicate_disk_bytes = disk_bytes_from_stat s;
        hardlink_first_seen_disk_bytes = 0;
      },
      seen,
    )
    else if leb max_entries (length seen)
    then none
    else some (
      record {
        disk_bytes = disk_bytes_from_stat s;
        hardlink_file_count = 1;
        hardlink_duplicate_count = 0;
        hardlink_duplicate_disk_bytes = 0;
        hardlink_first_seen_disk_bytes = disk_bytes_from_stat s;
      },
      inode_key s ∷ seen,
    )

-- `_mount_signature`
pub record Signature : Type 0 where
  pub major_minor : String
  pub root : Bytes
  pub mount_point : Bytes

abbrev pub mount_signature : Option MountInfo → Option Signature
mount_signature none = none
mount_signature (some m) =
    some (record { major_minor = m.major_minor; root = m.root; mount_point = m.mount_point })

pub same_signature : Signature → Signature → Bool
same_signature a b =
    str_eq a.major_minor b.major_minor
    && (bytes_eq a.root b.root && bytes_eq a.mount_point b.mount_point)

-- `_DescendContext`
pub record DescendContext : Type 0 where
  pub root_device : ℕ
  pub mount_policy : MountPolicy
  pub current_mount_id : Option ℕ
  pub current_mount_signature : Option Signature
  pub active_mount_ids : List ℕ
  pub active_mount_signatures : List Signature
  pub active_directory_keys : List InodeKey

abbrev is_id : Option ℕ → ℕ → Bool
is_id none id = false
is_id (some j) id = j == id

abbrev is_signature : Option Signature → Signature → Bool
is_signature none s = false
is_signature (some t) s = same_signature s t

-- `_active_mount_cycle_decision`: whether there is a cycle
pub is_mount_cycle : Option MountInfo → DescendContext → Bool
is_mount_cycle none context = false
is_mount_cycle (some m) context =
    let s : Signature = record {
      major_minor = m.major_minor;
      root = m.root;
      mount_point = m.mount_point;
    } in
    not
      (is_id context.current_mount_id m.mount_id && is_signature context.current_mount_signature s)
    && (any (λ id. id == m.mount_id) context.active_mount_ids
        || any (same_signature s) context.active_mount_signatures)

abbrev skip : Option MountInfo → Message → Bool → MountDecision
skip none reason changed = record {
  include = false;
  reason = reason;
  filesystem_type = none;
  mount_id = none;
  device_changed = changed;
}
skip (some m) reason changed = record {
  include = false;
  reason = reason;
  filesystem_type = some m.filesystem_type;
  mount_id = some m.mount_id;
  device_changed = changed;
}

abbrev id_of : Option MountInfo → ℕ
id_of none = 0
id_of (some m) = m.mount_id

-- `should_descend`, with its three decisions in the source's order
pub should_descend : Stat → Option MountInfo → DescendContext → MountDecision
should_descend s mount_info context =
    let decision = classify_mount mount_info context.mount_policy in
    if not decision.include
    then decision
    else if context.mount_policy.one_filesystem && not (s.st_dev == context.root_device)
    then record decision {
      include = false;
      reason = Message.separate_filesystem context.root_device s.st_dev;
      device_changed = true;
    }
    else if is_mount_cycle mount_info context
    then skip mount_info (Message.mount_cycle (id_of mount_info)) false
    else if any (same_inode (inode_key s)) context.active_directory_keys
    then skip mount_info (Message.directory_cycle s.st_dev s.st_ino) false
    else decision
