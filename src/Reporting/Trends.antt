-- ===== src/Reporting/Trends.antt =====
-- reporting/trends.py: how a path grew over its samples. The ratios of the source are floats; they
-- are compared here by products, as the source does for sums below 2 ^ 50 bytes. The slope and the
-- volatility are floats without a decision on them, and are left out.
pub mod Sums
pub mod Shapes
use watchdirs.Prelude.{
  ℕ, zero, suc, ◌+◌, ◌-◌, ◌*◌, ◌/◌, Bool, true, false, ◌&&◌, ◌||◌, not, Option, none, some, List,
  [], ◌∷◌, leb, ltb, ◌==◌, if◌then◌else◌, length, sum_of, sorted, filter, max,
}
use watchdirs.Prelude.Int.{ℤ, pos, minus, pos_part, neg_part, le_int, lt_int}
use watchdirs.Prelude.Sorting.{last_of}

pub data GrowthShape : Type 0 where
  steady_growth one_time_jump bursty_growth grow_then_clean stable_large : GrowthShape
  unknown_insufficient_samples : GrowthShape

-- `finished_at` is the instant in microseconds.
pub record TrendSample : Type 0 where
  pub snapshot_id : ℕ
  pub finished_at : ℕ
  pub disk_bytes : ℕ
  pub apparent_bytes : ℕ

pub record TrendMetrics : Type 0 where
  pub samples : List TrendSample
  pub start_disk_bytes : Option ℕ
  pub end_disk_bytes : Option ℕ
  pub net_disk_bytes_delta : ℤ
  pub gross_positive_disk_bytes_delta : ℕ
  pub gross_negative_disk_bytes_delta : ℕ
  pub first_observed_at : Option ℕ
  pub first_nonzero_at : Option ℕ
  pub last_growth_at : Option ℕ
  pub peak_disk_bytes : Option ℕ
  pub sample_count : ℕ
  pub missing_sample_count : ℕ
  pub shape : GrowthShape

-- the order by `(finished_at, snapshot_id)`
abbrev pub sample_lt : TrendSample → TrendSample → Bool
sample_lt a b =
    ltb a.finished_at b.finished_at
    || (a.finished_at == b.finished_at && ltb a.snapshot_id b.snapshot_id)

-- `_disk_deltas`, of the samples from one on
abbrev pub deltas_from : TrendSample → List TrendSample → List ℤ
deltas_from s [] = []
deltas_from s (t ∷ ts) = minus t.disk_bytes s.disk_bytes ∷ deltas_from t ts

abbrev pub disk_deltas : List TrendSample → List ℤ
disk_deltas [] = []
disk_deltas (s ∷ ss) = deltas_from s ss

-- `sum(delta for delta in deltas if delta > 0)`, and of the others with the sign turned
abbrev pub gross_positive_of : List ℤ → ℕ
gross_positive_of deltas = sum_of pos_part deltas

abbrev pub gross_negative_of : List ℤ → ℕ
gross_negative_of deltas = sum_of neg_part deltas

-- `max(..., default=None)`
abbrev pub peak_from : ℕ → List TrendSample → ℕ
peak_from m [] = m
peak_from m (s ∷ ss) = peak_from (if ltb m s.disk_bytes then s.disk_bytes else m) ss

abbrev pub peak_of : List TrendSample → Option ℕ
peak_of [] = none
peak_of (s ∷ ss) = some (peak_from s.disk_bytes ss)

-- `_material_delta_threshold`
unfoldable pub material_delta_threshold : Option ℕ → ℕ
material_delta_threshold none = 1
material_delta_threshold (some peak) = if ltb (peak / 100) 1 then 1 else peak / 100

-- `_ShapeInputs`
pub record ShapeInputs : Type 0 where
  pub samples : List TrendSample
  pub deltas : List ℤ
  pub gross_positive : ℕ
  pub gross_negative : ℕ
  pub net_delta : ℤ
  pub peak_disk_bytes : ℕ
  pub end_disk_bytes : ℕ
  pub material_delta : ℕ

-- `_is_grow_then_clean`
abbrev pub is_grow_then_clean : ShapeInputs → Bool
is_grow_then_clean i =
    ltb 0 i.gross_positive
    && (leb i.gross_positive (2 * i.gross_negative)
        && (ltb i.end_disk_bytes i.peak_disk_bytes
            && le_int i.net_delta (minus i.gross_positive i.gross_negative)))

-- `max((delta for delta in deltas if delta > 0), default=0)`
abbrev pub largest_positive : List ℤ → ℕ
largest_positive [] = 0
largest_positive (d ∷ ds) =
    let m = largest_positive ds in if ltb m (pos_part d) then pos_part d else m

-- `_is_one_time_jump`
abbrev pub is_one_time_jump : List ℤ → ℕ → Bool
is_one_time_jump deltas gross_positive =
    ltb 0 gross_positive && leb (3 * gross_positive) (4 * largest_positive deltas)

abbrev pub is_material_growth : ℕ → ℤ → Bool
is_material_growth material delta = le_int (pos material) delta

-- `_is_steady_growth`
abbrev pub is_steady_growth : ShapeInputs → Bool
is_steady_growth i =
    let positive_interval_count = length (filter (is_material_growth i.material_delta) i.deltas) in
    let interval_count = length i.deltas in
    if leb interval_count 0
      || (ltb i.gross_positive i.material_delta || lt_int i.net_delta (pos i.material_delta))
    then false
    else if ltb (5 * positive_interval_count) (3 * interval_count)
    then false
    else leb (5 * i.gross_negative) i.gross_positive

-- `_classify_shape`, with a peak
unfoldable pub classify_shape : ShapeInputs → GrowthShape
classify_shape i =
    if ltb (length i.samples) 3
    then unknown_insufficient_samples
    else if ltb i.gross_positive i.material_delta && ltb i.gross_negative i.material_delta
    then stable_large
    else if is_grow_then_clean i
    then grow_then_clean
    else if is_one_time_jump i.deltas i.gross_positive
    then one_time_jump
    else if is_steady_growth i
    then steady_growth
    else if leb i.material_delta i.gross_positive
    then bursty_growth
    else stable_large

-- `_first_nonzero_at`
abbrev pub first_nonzero_at : List TrendSample → Option ℕ
first_nonzero_at [] = none
first_nonzero_at (s ∷ ss) =
    let rest = first_nonzero_at ss in if ltb 0 s.disk_bytes then some s.finished_at else rest

abbrev or_later : Option ℕ → Option ℕ → Option ℕ
or_later (some later) this = some later
or_later none this = this

-- `_last_growth_at`: the last delta that is material, by the sample that it leads to
abbrev pub last_growth_from : ℕ → TrendSample → List TrendSample → Option ℕ
last_growth_from material s [] = none
last_growth_from material s (t ∷ ts) = or_later (last_growth_from material t ts) (
    if is_material_growth material (minus t.disk_bytes s.disk_bytes)
    then some t.finished_at
    else none)

-- `_missing_sample_count`
abbrev pub missing_sample_count : ℕ → Option ℕ → ℕ
missing_sample_count count none = 0
missing_sample_count count (some expected) = expected - count

-- what the shape is classified by
abbrev pub inputs_of : TrendSample → List TrendSample → ShapeInputs
inputs_of s ss = record {
  samples = s ∷ ss;
  deltas = deltas_from s ss;
  gross_positive = gross_positive_of (deltas_from s ss);
  gross_negative = gross_negative_of (deltas_from s ss);
  net_delta = minus (last_of s ss).disk_bytes s.disk_bytes;
  peak_disk_bytes = peak_from s.disk_bytes ss;
  end_disk_bytes = (last_of s ss).disk_bytes;
  material_delta = material_delta_threshold (some (peak_from s.disk_bytes ss));
}

-- `analyze_trend` of ordered samples
analyze_ordered : List TrendSample → Option ℕ → TrendMetrics
analyze_ordered [] expected = record {
  samples = [];
  start_disk_bytes = none;
  end_disk_bytes = none;
  net_disk_bytes_delta = pos 0;
  gross_positive_disk_bytes_delta = 0;
  gross_negative_disk_bytes_delta = 0;
  first_observed_at = none;
  first_nonzero_at = none;
  last_growth_at = none;
  peak_disk_bytes = none;
  sample_count = 0;
  missing_sample_count = missing_sample_count 0 expected;
  shape = unknown_insufficient_samples;
}
analyze_ordered (s ∷ ss) expected =
    let last = last_of s ss in
    let deltas = deltas_from s ss in
    let peak = peak_from s.disk_bytes ss in
    let material = material_delta_threshold (some peak) in
    record {
      samples = s ∷ ss;
      start_disk_bytes = some s.disk_bytes;
      end_disk_bytes = some last.disk_bytes;
      net_disk_bytes_delta = minus last.disk_bytes s.disk_bytes;
      gross_positive_disk_bytes_delta = gross_positive_of deltas;
      gross_negative_disk_bytes_delta = gross_negative_of deltas;
      first_observed_at = some s.finished_at;
      first_nonzero_at = first_nonzero_at (s ∷ ss);
      last_growth_at = last_growth_from material s ss;
      peak_disk_bytes = some peak;
      sample_count = length (s ∷ ss);
      missing_sample_count = missing_sample_count (length (s ∷ ss)) expected;
      shape = classify_shape (inputs_of s ss);
    }

-- `analyze_trend`
unfoldable pub analyze_trend : List TrendSample → Option ℕ → TrendMetrics
unfolding analyze_ordered
analyze_trend samples expected = analyze_ordered (sorted sample_lt samples) expected
