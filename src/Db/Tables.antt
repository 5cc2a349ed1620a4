-- ===== src/Db/Tables.antt =====
-- schema.sql: the tables as lists of rows. Bounds of an interval are half open,
-- `valid_from <= snapshot < valid_to`, and a missing upper bound means that it is still valid.
use native.Mathlib.Decide.{ℕ_discrete}
use watchdirs.Prelude.{
  ℕ, ◌+◌, String, Bool, true, false, ◌&&◌, Option, none, some, List, [], ◌∷◌, ltb, leb, ◌==◌,
  if◌then◌else◌, max,
}
use watchdirs.Prelude.Bytes.{Bytes}
use watchdirs.Prelude.Dict.{string_eq}
use watchdirs.Model.{SnapshotRecord, Message, CollapseReason, Message-discrete}

-- `_STATE_COLUMNS`
pub record StateColumns : Type 0 where
  pub parent_id : Option ℕ
  pub depth : ℕ
  pub apparent_bytes : ℕ
  pub disk_bytes : ℕ
  pub file_count : ℕ
  pub dir_count : ℕ
  pub error : Option Message
  pub hardlink_file_count : ℕ
  pub hardlink_duplicate_count : ℕ
  pub hardlink_duplicate_disk_bytes : ℕ
  pub hardlink_first_seen_disk_bytes : ℕ
  pub collapsed : Bool
  pub collapse_reason : Option CollapseReason
  pub collapsed_dirs : Option ℕ
  pub top_child_id : Option ℕ
  pub top_child_disk_bytes : Option ℕ

pub StateColumns-discrete : Discrete StateColumns
StateColumns-discrete = hlevel (ℕ_discrete, Message-discrete)

-- a row of `paths`
pub record PathRow : Type 0 where
  pub id : ℕ
  pub path : Bytes

-- a row of `directory_size_intervals`, without its surrogate key
pub record Interval : Type 0 where
  pub root_path : String
  pub path_id : ℕ
  pub valid_from : ℕ
  pub valid_to : Option ℕ
  pub state : StateColumns

-- a row of `directory_size_diagnostics`, without its surrogate key
pub record Diagnostic : Type 0 where
  pub snapshot_id : ℕ
  pub path_id : ℕ
  pub state : StateColumns

pub record Database : Type 0 where
  pub snapshots : List SnapshotRecord
  pub paths : List PathRow
  pub intervals : List Interval
  pub diagnostics : List Diagnostic

-- What sqlite or the program raises.
pub data DbError : Type 0 where
  -- a UNIQUE constraint fails
  integrity_error : DbError
  -- `RuntimeError`: the snapshot is not in the table
  snapshot_missing : ℕ → DbError

pub data Result {ℓ} (A : Type ℓ) : Type ℓ where
  err : DbError → Result A
  ok : A → Result A

infixl 5 ◌>>=◌
abbrev pub ◌>>=◌ {κ ℓ} : {A : Type ℓ} {B : Type κ} → Result A → (A → Result B) → Result B
err failure >>= next = err failure
ok value >>= next = next value

-- `INTEGER PRIMARY KEY`: the row id is one more than the largest in the table.
module _ {ℓ} {A : Type ℓ} (id : A → ℕ) where
  abbrev pub next_id : List A → ℕ
  next_id [] = 1
  next_id (r ∷ rows) = max (id r + 1) (next_id rows)

-- `valid_to_snapshot_id IS NULL`
abbrev pub is_open : Interval → Bool
is_open i = elim i.valid_to [ none ↦ true | some t ↦ false ]

abbrev pub below_end : ℕ → Option ℕ → Bool
below_end s none = true
below_end s (some t) = ltb s t

-- `valid_from <= s AND (valid_to IS NULL OR s < valid_to)`
abbrev pub covers : ℕ → Interval → Bool
covers s i = leb i.valid_from s && below_end s i.valid_to

abbrev pub same_path : String → ℕ → Interval → Bool
same_path root p i = string_eq.beq i.root_path root && i.path_id == p

-- The states that a query for one path of a root at one snapshot returns, in table order.
abbrev pub states_at : String → ℕ → ℕ → List Interval → List StateColumns
states_at root p s [] = []
states_at root p s (i ∷ rows) =
    if same_path root p i && covers s i
    then i.state ∷ states_at root p s rows
    else states_at root p s rows
