-- ===== src/Retention/Policy.antt =====
-- `RetentionPolicy` of db/retention.py: its checks, its tiers, and the cutoffs that they give.
use watchdirs.Prelude.{
  ℕ, ◌+◌, ◌-◌, ◌*◌, ◌≡◌, ◌≤◌, ◌<◌, refl, Bool, true, false, Option, none, some, List, [], ◌∷◌,
  arith, ltb, leb, if◌then◌else◌, String,
}
use watchdirs.Model.Time.{DateTime, instant, micros_per_day, micros_per_hour}

pub data TierMode : Type 0 where
  complete_in_hourly_window incomplete_in_diagnostic_window : TierMode
  latest_complete_per_utc_day latest_complete_per_utc_month : TierMode

-- What the module raises.
pub data RetentionError : Type 0 where
  -- `ValueError`
  bad_hourly_days bad_daily_days bad_incomplete_hours bad_order : RetentionError
  bad_window : String → RetentionError
  no_finite_window : String → RetentionError
  tier_missing : TierMode → RetentionError
  bad_timestamp : String → RetentionError
  -- `OverflowError`: a cutoff before year 1
  date_overflow : RetentionError
  -- `IntegrityError`: a NOT NULL or a UNIQUE constraint fails
  null_bound not_unique : RetentionError

pub data Result {ℓ} (A : Type ℓ) : Type ℓ where
  raise : RetentionError → Result A
  ok : A → Result A

infixl 5 ◌>>=◌ ◌>>◌
abbrev pub ◌>>=◌ {κ ℓ} : {A : Type ℓ} {B : Type κ} → Result A → (A → Result B) → Result B
raise failure >>= next = raise failure
ok value >>= next = next value

-- inversion of a bind that succeeds
pub >>=-eq-ok {κ ℓ} :
    {A : Type ℓ} {B : Type κ} (m : Result A) (next : A → Result B) {result : B}
    → (m >>= next) ≡ ok result
    → (value : A) × (m ≡ ok value) × (next value ≡ ok result)
>>=-eq-ok (raise failure) next h = cc
>>=-eq-ok (ok value) next h = (value, refl, h)

abbrev pub ◌>>◌ {κ} : {B : Type κ} → Result (Unit {0}) → Result B → Result B
check >> rest = check >>= λ _. rest

abbrev pub raise_if : Bool → RetentionError → Result (Unit {0})
raise_if true e = raise e
raise_if false e = ok tt

pub record RetentionTier : Type 0 where
  pub name : String
  pub mode : TierMode
  pub window_days : Option ℕ

pub record RetentionPolicy : Type 0 where
  pub hourly_days : ℕ
  pub daily_days : ℕ
  pub incomplete_hours : ℕ

-- `RetentionPolicy.__post_init__`
unfoldable pub new_policy : ℕ → ℕ → ℕ → Result RetentionPolicy
new_policy hourly_days daily_days incomplete_hours = do
  raise_if (leb hourly_days 0) bad_hourly_days
  raise_if (leb daily_days 0) bad_daily_days
  raise_if (leb incomplete_hours 0) bad_incomplete_hours
  raise_if (ltb daily_days hourly_days) bad_order
  ok (record {
    hourly_days = hourly_days;
    daily_days = daily_days;
    incomplete_hours = incomplete_hours;
  })

-- `RetentionTier.__post_init__`
unfoldable pub new_tier : String → TierMode → Option ℕ → Result RetentionTier
new_tier name mode none = ok (record { name = name; mode = mode; window_days = none })
new_tier name mode (some days) =
    if leb days 0
    then raise (bad_window name)
    else ok (record { name = name; mode = mode; window_days = some days })

-- the property `tiers`
unfoldable pub tiers : RetentionPolicy → Result (List RetentionTier)
unfolding new_tier
tiers policy = do
  hourly ← new_tier "hourly" complete_in_hourly_window (some policy.hourly_days)
  incomplete ← new_tier "incomplete" incomplete_in_diagnostic_window none
  daily ← new_tier "daily" latest_complete_per_utc_day (some policy.daily_days)
  monthly ← new_tier "monthly" latest_complete_per_utc_month none
  ok (hourly ∷ incomplete ∷ daily ∷ monthly ∷ [])

same_mode : TierMode → TierMode → Bool
same_mode complete_in_hourly_window complete_in_hourly_window = true
same_mode incomplete_in_diagnostic_window incomplete_in_diagnostic_window = true
same_mode latest_complete_per_utc_day latest_complete_per_utc_day = true
same_mode latest_complete_per_utc_month latest_complete_per_utc_month = true
same_mode a b = false

find_tier : TierMode → List RetentionTier → Result RetentionTier
find_tier mode [] = raise (tier_missing mode)
find_tier mode (t ∷ ts) = if same_mode t.mode mode then ok t else find_tier mode ts

-- the method `tier`
unfoldable pub tier : RetentionPolicy → TierMode → Result RetentionTier
unfolding tiers find_tier same_mode
tier policy mode = do ts ← tiers policy; find_tier mode ts

-- `_required_window_days`
unfoldable pub required_window_days : RetentionTier → Result ℕ
required_window_days t = elim t.window_days [
  | none ↦ raise (no_finite_window t.name)
  | some days ↦ ok days
]

-- `now - timedelta(...)` on instants: the first day of year 1 is the least date.
unfoldable pub minus_window : ℕ → ℕ → Result ℕ
minus_window now window =
    if ltb now (window + micros_per_day) then raise date_overflow else ok (now - window)

-- instants before which a tier ends
pub record Cutoffs : Type 0 where
  pub hourly : ℕ
  pub daily : ℕ
  pub incomplete : ℕ

-- The head of `select_retained_snapshot_ids`.
unfoldable pub cutoffs : RetentionPolicy → DateTime → Result Cutoffs
unfolding tier required_window_days minus_window
cutoffs policy now = do
  hourly_tier ← tier policy complete_in_hourly_window
  daily_tier ← tier policy latest_complete_per_utc_day
  hourly_days ← required_window_days hourly_tier
  hourly ← minus_window (instant now) (hourly_days * micros_per_day)
  daily_days ← required_window_days daily_tier
  daily ← minus_window (instant now) (daily_days * micros_per_day)
  incomplete ← minus_window (instant now) (policy.incomplete_hours * micros_per_hour)
  ok (record { hourly = hourly; daily = daily; incomplete = incomplete })

new_policy_valid :
    (hourly_days daily_days incomplete_hours : ℕ) {policy : RetentionPolicy}
    → new_policy hourly_days daily_days incomplete_hours ≡ ok policy
    → (policy ≡ record {
      hourly_days = hourly_days;
      daily_days = daily_days;
      incomplete_hours = incomplete_hours;
    })
      × (0 < hourly_days)
      × (hourly_days ≤ daily_days)
unfolding new_policy
new_policy_valid hourly_days daily_days incomplete_hours valid =
    (ground arith, ground arith, ground arith)

minus_window-ok :
    (now window : ℕ) → window + micros_per_day ≤ now → minus_window now window ≡ ok (now - window)
unfolding minus_window
minus_window-ok now window h = ground arith

cutoffs-ok :
    (policy : RetentionPolicy) (now : DateTime)
    → 0 < policy.hourly_days
    → policy.hourly_days ≤ policy.daily_days
    → (policy.daily_days + 1) * micros_per_day ≤ instant now
    → policy.incomplete_hours * micros_per_hour + micros_per_day ≤ instant now
    → cutoffs policy now
      ≡ ok (record {
        hourly = instant now - policy.hourly_days * micros_per_day;
        daily = instant now - policy.daily_days * micros_per_day;
        incomplete = instant now - policy.incomplete_hours * micros_per_hour;
      })
unfolding cutoffs
cutoffs-ok policy now pos order far near =
    let h : leb policy.hourly_days 0 ≡ false = ground arith in
    let d : leb policy.daily_days 0 ≡ false = ground arith in
    rw (
      h,
      d,
      minus_window-ok (instant now) (policy.hourly_days * micros_per_day) (omega arith),
      minus_window-ok (instant now) (policy.daily_days * micros_per_day) (omega arith),
      minus_window-ok (instant now) (policy.incomplete_hours * micros_per_hour) near,
    )

-- A policy that passes its checks and a date far enough from year 1 give cutoffs that lie the
-- configured windows before now, the daily one no later than the hourly one.
pub cutoffs_lem :
    (hourly_days daily_days incomplete_hours : ℕ) (policy : RetentionPolicy) (now : DateTime)
    → new_policy hourly_days daily_days incomplete_hours ≡ ok policy
    → (daily_days + 1) * micros_per_day ≤ instant now
    → incomplete_hours * micros_per_hour + micros_per_day ≤ instant now
    → (c : Cutoffs) × (cutoffs policy now ≡ ok c)
      × (c.hourly + hourly_days * micros_per_day ≡ instant now)
      × (c.daily + daily_days * micros_per_day ≡ instant now)
      × (c.incomplete + incomplete_hours * micros_per_hour ≡ instant now)
      × (c.daily ≤ c.hourly)
cutoffs_lem hourly_days daily_days incomplete_hours policy now valid far near =
    let (same, pos, order) = new_policy_valid hourly_days daily_days incomplete_hours valid in
    (
      record {
        hourly = instant now - hourly_days * micros_per_day;
        daily = instant now - daily_days * micros_per_day;
        incomplete = instant now - incomplete_hours * micros_per_hour;
      },
      rw same (cutoffs-ok _ now pos order far near),
      omega arith,
      omega arith,
      omega arith,
      omega arith,
    )
