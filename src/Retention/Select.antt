-- ===== src/Retention/Select.antt =====
-- `select_retained_snapshot_ids` of db/retention.py. The reading of a timestamp without an offset
-- depends on the machine's time zone, and is an argument.
pub mod Exact
pub mod Reading
use text.Mathlib.Text.{◌==◌ as str_eq}
use text.Mathlib.TextEquality.{eq_iff}
use watchdirs.Prelude.{
  ℕ, String, ◌≡◌, ◌↔◌, Bool, true, false, ◌&&◌, ◌||◌, Option, none, some, List, [], ◌∷◌, ◌++◌, map,
  arith, ltb, leb, ◌==◌, ==_iff, if◌then◌else◌, any, sorted, refl,
}
use watchdirs.Prelude.Dict.{Eq, insert}
use watchdirs.Model.{SnapshotRecord, SnapshotStatus, snapshot_status_from_storage}
use watchdirs.Model.Time.{DateTime, StoredTime, instant}
use watchdirs.Retention.Policy.{
  RetentionPolicy, Result, ok, raise, bad_timestamp, ◌>>=◌, Cutoffs, cutoffs,
}
use watchdirs.Retention.Best.{Representative, insert_best}

-- `(root_path, finished_at.date())`
pub record DayBucket : Type 0 where
  pub root_path : String
  pub year : ℕ
  pub month : ℕ
  pub day : ℕ

-- `(root_path, finished_at.year, finished_at.month)`
pub record MonthBucket : Type 0 where
  pub root_path : String
  pub year : ℕ
  pub month : ℕ

abbrev pub day_beq : DayBucket → DayBucket → Bool
day_beq a b =
    str_eq a.root_path b.root_path && a.year == b.year && a.month == b.month && a.day == b.day

pub day_beq_iff : (a b : DayBucket) → (day_beq a b ≡ true) ↔ (a ≡ b)
day_beq_iff a b = ground (arith, eq_iff a.root_path b.root_path)

abbrev pub month_beq : MonthBucket → MonthBucket → Bool
month_beq a b = str_eq a.root_path b.root_path && a.year == b.year && a.month == b.month

pub month_beq_iff : (a b : MonthBucket) → (month_beq a b ≡ true) ↔ (a ≡ b)
month_beq_iff a b = ground (arith, eq_iff a.root_path b.root_path)

instance abbrev pub day_eq : Eq DayBucket
day_eq = record { beq = day_beq; beq_iff = day_beq_iff }

instance abbrev pub month_eq : Eq MonthBucket
month_eq = record { beq = month_beq; beq_iff = month_beq_iff }

-- `_RetentionSelectionState`; the set `keep_ids` as the list of what was added to it
pub record State : Type 0 where
  pub keep_ids : List ℕ
  pub daily : List (DayBucket × Representative)
  pub monthly : List (MonthBucket × Representative)

abbrev pub empty_state : State
empty_state = record { keep_ids = []; daily = []; monthly = [] }

abbrev pub day_bucket : String → DateTime → DayBucket
day_bucket root t = record { root_path = root; year = t.year; month = t.month; day = t.day }

abbrev pub month_bucket : String → DateTime → MonthBucket
month_bucket root t = record { root_path = root; year = t.year; month = t.month }

abbrev pub representative : DateTime → ℕ → Representative
representative t id = record { at = instant t; id = id }

module _ (local_time : DateTime → DateTime) where
  -- `_parse_snapshot_timestamp`
  unfoldable pub parse_snapshot_timestamp : Option StoredTime → Result (Option DateTime)
  parse_snapshot_timestamp none = ok none
  parse_snapshot_timestamp (some (StoredTime.utc t)) = ok (some t)
  parse_snapshot_timestamp (some (StoredTime.naive t)) = ok (some (local_time t))
  parse_snapshot_timestamp (some (StoredTime.unparseable text)) = raise (bad_timestamp text)

  -- `finished_at or _parse_snapshot_timestamp(row["started_at"])`
  unfoldable pub evidence_at : Option DateTime → SnapshotRecord → Result (Option DateTime)
  evidence_at (some t) row = ok (some t)
  evidence_at none row = parse_snapshot_timestamp (some row.started_at)

-- the branch of `_record_retained_snapshot_id` for what is not COMPLETE
unfoldable pub record_incomplete : Cutoffs → ℕ → Option DateTime → State → State
record_incomplete c id none state = state
record_incomplete c id (some t) state =
    if leb c.incomplete (instant t) then record state { keep_ids = id ∷ state.keep_ids } else state

-- the branch for a COMPLETE snapshot
unfoldable pub record_complete : Cutoffs → String → ℕ → Option DateTime → State → State
record_complete c root id none state = state
record_complete c root id (some t) state =
    let monthly = insert_best (month_bucket root t) (representative t id) state.monthly in
    if leb c.hourly (instant t)
    then record state { keep_ids = id ∷ state.keep_ids; monthly = monthly }
    else if leb c.daily (instant t)
    then record state {
      daily = insert_best (day_bucket root t) (representative t id) state.daily;
      monthly = monthly;
    }
    else record state { monthly = monthly }

-- the row's status as the program reads it
abbrev pub status_of : SnapshotRecord → SnapshotStatus
status_of row = snapshot_status_from_storage row.status row.finished_at

module _ (local_time : DateTime → DateTime) (c : Cutoffs) where
  -- `_record_retained_snapshot_id`
  unfoldable pub record_retained_snapshot_id : State → SnapshotRecord → Result State
  record_retained_snapshot_id state row =
      parse_snapshot_timestamp local_time row.finished_at >>= λ finished_at. elim (status_of row) [
        | SnapshotStatus.complete ↦ ok (record_complete c row.root_path row.id finished_at state)
        | _ ↦ evidence_at local_time finished_at row >>= λ evidence.
            ok (record_incomplete c row.id evidence state)
      ]

  -- `for row in rows`
  unfoldable pub record_rows : State → List SnapshotRecord → Result State
  record_rows state [] = ok state
  record_rows state (row ∷ rows) =
      record_retained_snapshot_id state row >>= λ state'. record_rows state' rows

-- the ids of the values of a dictionary
abbrev pub value_ids {ℓ} : {K : Type ℓ} → List (K × Representative) → List ℕ
value_ids = map (λ kv. kv.1.id)

abbrev id_lt : ℕ → ℕ → Bool
id_lt = ltb

-- a `set` from its additions: the first of each id
abbrev pub distinct : List ℕ → List ℕ
distinct [] = []
distinct (x ∷ xs) = if any (λ y. y == x) xs then distinct xs else x ∷ distinct xs

-- `sorted(state.keep_ids)` after the two updates
unfoldable pub retained_ids : State → List ℕ
retained_ids state =
    sorted id_lt (distinct (state.keep_ids ++ (value_ids state.daily ++ value_ids state.monthly)))

-- The snapshots are the rows of `SELECT ... FROM snapshots ORDER BY id`.
unfoldable pub select_retained_snapshot_ids :
    (DateTime → DateTime) → RetentionPolicy → DateTime → List SnapshotRecord → Result (List ℕ)
select_retained_snapshot_ids local_time policy now rows = cutoffs policy now >>= λ c.
    record_rows local_time c empty_state rows >>= λ state. ok (retained_ids state)
