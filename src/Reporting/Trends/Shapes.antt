-- ===== src/Reporting/Trends/Shapes.antt =====
-- reporting/trends.py: what each growth shape says of the samples.
use watchdirs.Prelude.{
  ◌*◌, ◌≡◌, ◌≤◌, ◌<◌, ◌⊎◌, true, false, some, List, Member, length, sum_of, filter,
}
use watchdirs.Prelude.Int.{ℤ, pos, minus, pos_part, neg_part, le_int, lt_int}
use watchdirs.Reporting.Trends.{
  GrowthShape, steady_growth, one_time_jump, bursty_growth, grow_then_clean, stable_large,
  unknown_insufficient_samples, TrendMetrics, ShapeInputs, disk_deltas, material_delta_threshold,
  is_material_growth,
}

-- both sums below the least material change
abbrev pub IsQuiet : ShapeInputs → Type 0
IsQuiet i = (i.gross_positive < i.material_delta) × (i.gross_negative < i.material_delta)

-- gains of which at least half was lost, with an end below the peak
abbrev pub IsCleaned : ShapeInputs → Type 0
IsCleaned i =
    (0 < i.gross_positive)
    × (i.gross_positive ≤ 2 * i.gross_negative)
    × (i.end_disk_bytes < i.peak_disk_bytes)
    × (le_int i.net_delta (minus i.gross_positive i.gross_negative) ≡ true)

-- one change is at least three quarters of the gains
abbrev pub IsJump : ShapeInputs → Type 0
IsJump i =
    (0 < i.gross_positive) × ((d : ℤ) × Member d i.deltas × (3 * i.gross_positive ≤ 4 * pos_part d))

-- material gains, also net, in at least three fifths of the changes, with at most a fifth lost
abbrev pub IsSteady : ShapeInputs → Type 0
IsSteady i =
    (0 < length i.deltas)
    × (i.material_delta ≤ i.gross_positive)
    × (lt_int i.net_delta (pos i.material_delta) ≡ false)
    × (3 * length i.deltas ≤ 5 * length (filter (is_material_growth i.material_delta) i.deltas))
    × (5 * i.gross_negative ≤ i.gross_positive)

-- What each shape says: its own condition, and that no condition before it holds. The conditions
-- exclude each other, so each shape is given exactly where its condition holds.
abbrev pub Meaning : ShapeInputs → GrowthShape → Type 0
Meaning i unknown_insufficient_samples = length i.samples < 3
Meaning i stable_large =
    (3 ≤ length i.samples)
    × (IsQuiet i ⊎ ((i.gross_positive < i.material_delta) × (¬ (IsCleaned i)) × (¬ (IsJump i))))
Meaning i grow_then_clean = (3 ≤ length i.samples) × (¬ (IsQuiet i)) × IsCleaned i
Meaning i one_time_jump = (3 ≤ length i.samples) × (¬ (IsQuiet i)) × (¬ (IsCleaned i)) × IsJump i
Meaning i steady_growth = (3 ≤ length i.samples) × (¬ (IsCleaned i)) × (¬ (IsJump i)) × IsSteady i
Meaning i bursty_growth =
    (3 ≤ length i.samples)
    × (i.material_delta ≤ i.gross_positive)
    × (¬ (IsCleaned i))
    × (¬ (IsJump i))
    × (¬ (IsSteady i))

-- The inputs are those of the metrics.
pub record AreInputs (m : TrendMetrics) (i : ShapeInputs) : Type 0 where
  pub samples : m.samples ≡ i.samples
  pub deltas : i.deltas ≡ disk_deltas m.samples
  pub gross :
      (i.gross_positive ≡ m.gross_positive_disk_bytes_delta)
      × (i.gross_negative ≡ m.gross_negative_disk_bytes_delta)
  pub sums :
      (i.gross_positive ≡ sum_of pos_part i.deltas) × (i.gross_negative ≡ sum_of neg_part i.deltas)
  pub net : i.net_delta ≡ m.net_disk_bytes_delta
  pub sizes :
      (m.peak_disk_bytes ≡ some i.peak_disk_bytes) × (m.end_disk_bytes ≡ some i.end_disk_bytes)
  pub material : i.material_delta ≡ material_delta_threshold m.peak_disk_bytes
