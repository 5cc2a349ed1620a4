-- ===== src/Tests/Retention.antt =====
-- The theorems about db/retention.py at a small history.
use watchdirs.Prelude.{
  ℕ, ◌+◌, ◌-◌, ◌*◌, ◌≡◌, ◌↔◌, ◌≤◌, refl, Bool, true, false, Option, none, some, List, [], ◌∷◌,
  arith, String, Member,
}
use watchdirs.Model.{SnapshotRecord, SnapshotStatus, snapshot_status_from_storage}
use watchdirs.Model.Time.{DateTime, StoredTime, instant, micros_per_day, micros_per_hour}
use watchdirs.Db.Tables.{Interval, Database, states_at}
use watchdirs.Retention.Policy.{RetentionPolicy, ok, new_policy, Cutoffs, cutoffs, cutoffs_lem}
use watchdirs.Retention.Select.{parse_snapshot_timestamp, evidence_at, select_retained_snapshot_ids}
use watchdirs.Retention.Select.Exact.{select_retained_snapshot_ids_iff}
use watchdirs.Retention.Select.Reading.{Reading, read_snapshot, read_snapshots, IsKept, contains}
use watchdirs.Retention.Prune.{retained_complete, normalize_interval_boundaries, prune_snapshots}
use watchdirs.Retention.Prune.Bounds.{IsDisjoint}
use watchdirs.Retention.Prune.Normalize.{normalize_interval_boundaries_keeps}
use watchdirs.Retention.Prune.Outcome.{prune_snapshots_commit}

abbrev noon : ℕ → ℕ → DateTime
noon month day = record { year = 2024; month = month; day = day; micros = 12 * micros_per_hour }

abbrev policy : RetentionPolicy
policy = record { hourly_days = 2; daily_days = 30; incomplete_hours = 48 }

abbrev now : DateTime
now = noon 6 15

-- a machine in UTC
abbrev local_time : DateTime → DateTime
local_time t = t

cutoffs_example :
    (c : Cutoffs) × (cutoffs policy now ≡ ok c)
    × (c.hourly + 2 * micros_per_day ≡ instant now)
    × (c.daily + 30 * micros_per_day ≡ instant now)
    × (c.incomplete + 48 * micros_per_hour ≡ instant now)
    × (c.daily ≤ c.hourly)
unfolding new_policy instant
cutoffs_example = cutoffs_lem 2 30 48 policy now refl (omega arith) (omega arith)

abbrev snapshot_at : ℕ → SnapshotStatus → DateTime → SnapshotRecord
snapshot_at id status t = record {
  id = id;
  started_at = StoredTime.utc t;
  finished_at = some (StoredTime.utc t);
  root_path = "/";
  status = status;
  notes = none;
  error = none;
}

-- two of one day long ago, an old one that failed, and one of today
abbrev snapshots : List SnapshotRecord
snapshots =
    snapshot_at 1 SnapshotStatus.complete (noon 1 10)
    ∷ snapshot_at 2 SnapshotStatus.complete (noon 1 11)
    ∷ snapshot_at 3 SnapshotStatus.failed (noon 2 1)
    ∷ snapshot_at 4 SnapshotStatus.complete (noon 6 15)
    ∷ []

abbrev limits : Cutoffs
limits = record {
  hourly = instant now - 2 * micros_per_day;
  daily = instant now - 30 * micros_per_day;
  incomplete = instant now - 48 * micros_per_hour;
}

abbrev reading : ℕ → Bool → DateTime → Reading
reading id complete t = record { id = id; root_path = "/"; complete = complete; time = some t }

abbrev readings : List Reading
readings =
    reading 1 true (noon 1 10)
    ∷ reading 2 true (noon 1 11)
    ∷ reading 3 false (noon 2 1)
    ∷ reading 4 true (noon 6 15)
    ∷ []

select_retained_snapshot_ids_example :
    (ids : List ℕ) × (select_retained_snapshot_ids local_time policy now snapshots ≡ ok ids)
    × ((id : ℕ) → (contains id ids ≡ true) ↔ IsKept limits readings id)
unfolding cutoffs read_snapshots read_snapshot parse_snapshot_timestamp evidence_at instant
    snapshot_status_from_storage
select_retained_snapshot_ids_example =
    select_retained_snapshot_ids_iff local_time policy now snapshots limits readings refl refl

abbrev version_of : ℕ → Option ℕ → ℕ → Interval
version_of from end n = record {
  root_path = "/";
  path_id = 1;
  valid_from = from;
  valid_to = end;
  state = record {
    parent_id = none;
    depth = 0;
    apparent_bytes = n;
    disk_bytes = n;
    file_count = 1;
    dir_count = 0;
    error = none;
    hardlink_file_count = 0;
    hardlink_duplicate_count = 0;
    hardlink_duplicate_disk_bytes = 0;
    hardlink_first_seen_disk_bytes = 0;
    collapsed = false;
    collapse_reason = none;
    collapsed_dirs = none;
    top_child_id = none;
    top_child_disk_bytes = none;
  };
}

abbrev versions : List Interval
versions = version_of 1 (some 2) 10 ∷ version_of 2 (some 4) 20 ∷ version_of 4 none 30 ∷ []

disjoint : IsDisjoint versions
disjoint = (
  ((λ same s h. ground (arith, h)), ((λ same s h. ground (arith, h)), tt)),
  (((λ same s h. ground (arith, h)), tt), (tt, tt)),
)

normalize_interval_boundaries_example :
    (out : List Interval) × (normalize_interval_boundaries (2 ∷ 4 ∷ []) snapshots versions ≡ ok out)
    × ((root : String) (s p : ℕ)
        → Member s (retained_complete (2 ∷ 4 ∷ []) root snapshots)
        → states_at root p s out ≡ states_at root p s versions)
normalize_interval_boundaries_example =
    normalize_interval_boundaries_keeps (2 ∷ 4 ∷ []) snapshots versions disjoint

abbrev database : Database
database = record {
  snapshots = snapshots;
  paths = record { id = 1; path = 0x2f ∷ [] } ∷ record { id = 2; path = [] } ∷ [];
  intervals = versions;
  diagnostics = [];
}

prune_snapshots_commit_example :
    prune_snapshots local_time policy now true database
    ≡ prune_snapshots local_time policy now false database
prune_snapshots_commit_example = prune_snapshots_commit local_time policy now database
