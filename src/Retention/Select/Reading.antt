-- ===== src/Retention/Select/Reading.antt =====
-- What the tiers of db/retention.py keep, stated by the readings of the snapshots.
use watchdirs.Prelude.{
  ℕ, String, ◌≡◌, Bool, true, false, ◌&&◌, Option, none, some, List, [], ◌∷◌, ltb, leb, ◌==◌,
  if◌then◌else◌, any,
}
use watchdirs.Prelude.Dict.{values_of}
use watchdirs.Model.{SnapshotRecord, SnapshotStatus}
use watchdirs.Model.Time.{DateTime, instant}
use watchdirs.Retention.Policy.{Result, ok, ◌>>=◌, Cutoffs}
use watchdirs.Retention.Best.{Representative, IsGreatest}
use watchdirs.Retention.Select.{
  DayBucket, MonthBucket, day_bucket, month_bucket, representative, parse_snapshot_timestamp,
  evidence_at, status_of, day_eq, month_eq,
}

-- What the program reads of a snapshot: whether it is COMPLETE, and the time that counts.
pub record Reading : Type 0 where
  pub id : ℕ
  pub root_path : String
  pub complete : Bool
  pub time : Option DateTime

abbrev is_complete : SnapshotStatus → Bool
is_complete SnapshotStatus.complete = true
is_complete _ = false

-- COMPLETE: when it finished. Otherwise: when it finished, or else when it started.
unfoldable pub read_snapshot : (DateTime → DateTime) → SnapshotRecord → Result Reading
read_snapshot local_time row =
    parse_snapshot_timestamp local_time row.finished_at >>= λ finished_at.
    if is_complete (status_of row)
    then ok (record { id = row.id; root_path = row.root_path; complete = true; time = finished_at })
    else (evidence_at local_time finished_at row >>= λ evidence.
        ok (record { id = row.id; root_path = row.root_path; complete = false; time = evidence }))

unfoldable pub read_snapshots : (DateTime → DateTime) → List SnapshotRecord → Result (List Reading)
read_snapshots local_time [] = ok []
read_snapshots local_time (row ∷ rows) =
    read_snapshot local_time row >>= λ r. read_snapshots local_time rows >>= λ rs. ok (r ∷ rs)

abbrev pub at_or_after : ℕ → Option DateTime → Bool
at_or_after cutoff none = false
at_or_after cutoff (some t) = leb cutoff (instant t)

module _ (c : Cutoffs) where
  -- kept for itself: COMPLETE in the hourly window, or not COMPLETE in the diagnostic window
  abbrev pub kept_directly : ℕ → Reading → Bool
  kept_directly id r =
      r.id == id && at_or_after (if r.complete then c.hourly else c.incomplete) r.time

  -- the COMPLETE snapshots between the daily and the hourly cutoff, by day
  abbrev pub day_entries : List Reading → List (DayBucket × Representative)
  day_entries [] = []
  day_entries (r ∷ rs) = elim r.time [
    | none ↦ day_entries rs
    | some t ↦
        if r.complete && (leb c.daily (instant t) && ltb (instant t) c.hourly)
        then (day_bucket r.root_path t, representative t r.id) ∷ day_entries rs
        else day_entries rs
  ]

-- all COMPLETE snapshots, by month
abbrev pub month_entries : List Reading → List (MonthBucket × Representative)
month_entries [] = []
month_entries (r ∷ rs) = elim r.time [
  | none ↦ month_entries rs
  | some t ↦
      if r.complete
      then (month_bucket r.root_path t, representative t r.id) ∷ month_entries rs
      else month_entries rs
]

-- A snapshot is kept for itself, or as the latest of its root on a day, or in a month.
pub data IsKept (c : Cutoffs) (rs : List Reading) (id : ℕ) : Type 0 where
  directly : any (kept_directly c id) rs ≡ true → IsKept c rs id
  latest_of_day :
      (bucket : DayBucket) (v : Representative)
      → IsGreatest v (values_of bucket (day_entries c rs))
      → v.id ≡ id
      → IsKept c rs id
  latest_of_month :
      (bucket : MonthBucket) (v : Representative)
      → IsGreatest v (values_of bucket (month_entries rs))
      → v.id ≡ id
      → IsKept c rs id

abbrev pub contains : ℕ → List ℕ → Bool
contains id = any (λ x. x == id)
