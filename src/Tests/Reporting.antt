-- ===== src/Tests/Reporting.antt =====
-- The theorems about reporting/pairs.py and collect/filesystems.py at concrete rows.
use watchdirs.Prelude.{
  ◌++◌, ℕ, ◌*◌, ◌≡◌, ◌↔◌, ◌<◌, String, none, some, List, [], ◌∷◌, arith, ◌⊎◌, inr,
}
use watchdirs.Prelude.Bytes.{Bytes, path_separator}
use watchdirs.Prelude.Text.{digits_text, decimal_from}
use watchdirs.Model.{SnapshotRecord, SnapshotStatus, MountInfo, snapshot_status_from_storage}
use watchdirs.Model.Time.{StoredTime, instant, micros_per_day}
use watchdirs.Mounts.Classify.{default_policy}
use watchdirs.Filesystems.Usage.{StatVfs, scope_of, collect_snapshot_filesystem_usage}
use watchdirs.Filesystems.Collected.{Collected, collect_snapshot_filesystem_usage-Collected}
use watchdirs.Reporting.Pairs.{
  returned, SnapshotPair, partial_snapshot, resolve_snapshot_pair_by_ids, parse_finished_at_utc,
}
use watchdirs.Reporting.Since.{parse_since, IsUnit, parse_since-digits_text_iff}
use watchdirs.Reporting.Pairs.Comparable.{AreComparable, resolve_snapshot_pair_by_ids_iff}
use watchdirs.Reporting.Pairs.Roots.{usable_rows, resolve_root}
use watchdirs.Reporting.Pairs.Window.{IsWindow, resolve_root-IsWindow}

abbrev snapshot_on : ℕ → SnapshotStatus → ℕ → SnapshotRecord
snapshot_on id status day = record {
  id = id;
  started_at = StoredTime.unparseable "";
  finished_at = some (StoredTime.utc (record { year = 2024; month = 6; day = day; micros = 0 }));
  root_path = "/";
  status = status;
  notes = none;
  error = none;
}

-- a failed one between usable ones, and one that is out of order
abbrev june : List SnapshotRecord
june =
    snapshot_on 1 SnapshotStatus.complete 1
    ∷ snapshot_on 2 SnapshotStatus.failed 2
    ∷ snapshot_on 3 SnapshotStatus.partial 9
    ∷ snapshot_on 4 SnapshotStatus.complete 5
    ∷ []

abbrev june_pair : SnapshotPair
june_pair = record {
  root_path = "/";
  baseline = snapshot_on 4 SnapshotStatus.complete 5;
  current = snapshot_on 3 SnapshotStatus.partial 9;
  warnings = partial_snapshot "/" ∷ [];
}

resolve_snapshot_pair_by_ids_example :
    (resolve_snapshot_pair_by_ids june 4 3 ≡ returned june_pair) ↔ AreComparable june 4 3 june_pair
resolve_snapshot_pair_by_ids_example = resolve_snapshot_pair_by_ids_iff june 4 3 june_pair

resolve_root_example :
    (pair : SnapshotPair) × (resolve_root (2 * micros_per_day) "/" june ≡ returned (some pair))
    × IsWindow (2 * micros_per_day) (usable_rows "/" june) pair
unfolding usable_rows parse_finished_at_utc snapshot_status_from_storage instant
resolve_root_example =
    resolve_root-IsWindow (2 * micros_per_day) "/" june (omega arith) (omega arith)
      (omega arith, (omega arith, (omega arith, tt)))

abbrev ext4_at : ℕ → Bytes → MountInfo
ext4_at id point = record {
  mount_id = id;
  parent_id = 1;
  major_minor = "8:1";
  root = path_separator;
  mount_point = point;
  options = [];
  filesystem_type = "ext4";
  mount_source = "/dev/sda1";
  super_options = [];
}

-- "/", then "/h" twice
abbrev three_mounts : List MountInfo
three_mounts =
    ext4_at 1 path_separator
    ∷ ext4_at 2 (0x2f ∷ 0x68 ∷ [])
    ∷ ext4_at 3 (0x2f ∷ 0x68 ∷ 0x2f ∷ [])
    ∷ []

abbrev statvfs : Bytes → String ⊎ StatVfs
statvfs path =
    inr (record { f_frsize = 0; f_bsize = 4096; f_blocks = 100; f_bfree = 40; f_bavail = 30 })

collect_snapshot_filesystem_usage_example :
    Collected statvfs
      (scope_of 7 path_separator three_mounts default_policy)
      three_mounts
      (collect_snapshot_filesystem_usage statvfs 7 path_separator three_mounts default_policy)
collect_snapshot_filesystem_usage_example =
    collect_snapshot_filesystem_usage-Collected statvfs 7 path_separator three_mounts default_policy

-- "36h"
parse_since-digits_text_example :
    (parse_since (digits_text (3 ∷ 6 ∷ []) ++ (0x68 ∷ [])) ≡ some 129600) ↔ (
      (unit : ℕ) × IsUnit 0x68 unit
      × (129600 ≡ decimal_from 3 (6 ∷ []) * unit)
      × (129600 < 1000000000 * 24 * 60 * 60))
parse_since-digits_text_example =
    parse_since-digits_text_iff 3 (6 ∷ []) 0x68 129600 (omega arith)
      (omega arith, (omega arith, tt))
