-- ===== src/Tests/Trends.antt =====
-- The theorems about reporting/trends.py at concrete samples.
use watchdirs.Prelude.{ℕ, ◌*◌, List, [], ◌∷◌}
use watchdirs.Reporting.Trends.{TrendSample}

abbrev sample_of : ℕ → ℕ → TrendSample
sample_of id bytes = record {
  snapshot_id = id;
  finished_at = 10 * id;
  disk_bytes = bytes;
  apparent_bytes = bytes;
}

-- out of order, with a peak before the end
abbrev four_samples : List TrendSample
four_samples = sample_of 2 900 ∷ sample_of 1 100 ∷ sample_of 4 200 ∷ sample_of 3 1000 ∷ []
