-- ===== src/Reporting/Trends/Sums.antt =====
-- reporting/trends.py: the sums of the deltas and the extremes of the samples.
use mathlib.Core.List.{Permᴰ}
use watchdirs.Prelude.{
  ℕ, ◌≡◌, ◌≤◌, Option, some, List, ◌∷◌, ltb, if◌then◌else◌, All, Member, length,
}
use watchdirs.Prelude.Int.{minus}
use watchdirs.Prelude.Sorting.{last_of, IsSorted}
use watchdirs.Reporting.Trends.{TrendSample, TrendMetrics, sample_lt, missing_sample_count}

abbrev greater : ℕ → ℕ → ℕ
greater m n = if ltb m n then n else m

-- The metrics of at least one sample: `first` and `last` are the earliest and the latest one.
pub record IsTrend (samples : List TrendSample) (expected : Option ℕ) (m : TrendMetrics)
    : Type 0 where
  pub first : TrendSample
  pub later : List TrendSample
  pub ordered : (m.samples ≡ first ∷ later) × IsSorted sample_lt m.samples
  -- they are the samples that were given, reordered
  pub reordered : Permᴰ m.samples samples
  pub counted :
      (m.sample_count ≡ length samples)
      × (m.missing_sample_count ≡ missing_sample_count (length samples) expected)
  pub ends :
      (m.start_disk_bytes ≡ some first.disk_bytes)
      × (m.end_disk_bytes ≡ some (last_of first later).disk_bytes)
  pub net : m.net_disk_bytes_delta ≡ minus (last_of first later).disk_bytes first.disk_bytes
  pub balance :
      m.net_disk_bytes_delta
      ≡ minus m.gross_positive_disk_bytes_delta m.gross_negative_disk_bytes_delta
  pub peak : ℕ
  pub peak_stored : m.peak_disk_bytes ≡ some peak
  pub greatest : All (λ s. s.disk_bytes ≤ peak) m.samples
  pub reached : (s : TrendSample) × Member s m.samples × (peak ≡ s.disk_bytes)
