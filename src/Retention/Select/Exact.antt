-- ===== src/Retention/Select/Exact.antt =====
-- Exactly which snapshots `select_retained_snapshot_ids` keeps.
use watchdirs.Prelude.{
  ℕ, ◌≡◌, refl, ◌∙◌, ◌↔◌, inl, inr, Bool, true, false, ◌||◌, List, [], ◌∷◌, ◌++◌, arith, ltb, ◌==◌,
  ==_iff, if◌then◌else◌, any, any-append, sorted, Bool-cases, insert_sorted, ap, subst, sym,
}
use watchdirs.Prelude.Dict.{Eq, lookup, values_of}
use watchdirs.Model.{SnapshotRecord}
use watchdirs.Model.Time.{DateTime}
use watchdirs.Retention.Policy.{RetentionPolicy, ok, >>=-eq-ok, Cutoffs, cutoffs}
use watchdirs.Retention.Best.{
  Representative, IsGreatest, greatest_iff, best_all, best_all-DistinctKeys, lookup-best_all,
  has_id, lookup-has_id, has_id-lookup,
}
use watchdirs.Retention.Select.{
  State, empty_state, record_incomplete, record_complete, record_retained_snapshot_id, record_rows,
  value_ids, distinct, retained_ids, select_retained_snapshot_ids, day_eq, month_eq,
}
use watchdirs.Retention.Select.Reading.{
  directly, latest_of_day, latest_of_month, Reading, read_snapshot, read_snapshots, kept_directly,
  day_entries, month_entries, IsKept, contains,
}

contains-insert_sorted :
    (id x : ℕ) (xs : List ℕ) → contains id (insert_sorted ltb x xs) ≡ (x == id || contains id xs)
contains-insert_sorted id x [] = refl
contains-insert_sorted id x (y ∷ ys) = ground (arith, contains-insert_sorted id x ys)

contains-sorted : (id : ℕ) (xs : List ℕ) → contains id (sorted ltb xs) ≡ contains id xs
contains-sorted id [] = refl
contains-sorted id (x ∷ xs) =
    ground (arith, contains-sorted id xs, contains-insert_sorted id x (sorted ltb xs))

contains-distinct : (id : ℕ) (xs : List ℕ) → contains id (distinct xs) ≡ contains id xs
contains-distinct id [] = refl
contains-distinct id (x ∷ xs) = elim (Bool-cases (x == id)) [
  | inl same ↦
      ground (arith, contains-distinct id xs, ap (λ k. contains k xs) ((==_iff x id).0 same))
  | inr ne ↦ ground (arith, contains-distinct id xs)
]

contains-value_ids {ℓ} :
    {K : Type ℓ} ⦃e : Eq K⦄ (id : ℕ) (d : List (K × Representative))
    → contains id (value_ids d) ≡ has_id id d
contains-value_ids id [] = refl
contains-value_ids id (kv ∷ d) = ground (arith, contains-value_ids id d)

last_of_three : (a b d : Bool) → (a || (b || d)) ≡ true → a ≡ false → b ≡ false → d ≡ true
last_of_three a b d h p q = ground arith

module _ (c : Cutoffs) where
  -- one turn of the loop, on what it reads
  after_reading : State → Reading → State
  after_reading state r =
      if r.complete
      then record_complete c r.root_path r.id r.time state
      else record_incomplete c r.id r.time state

  after_readings : State → List Reading → State
  after_readings state [] = state
  after_readings state (r ∷ rs) = after_readings (after_reading state r) rs

  keep_ids-after :
      (id : ℕ) (state : State) (rs : List Reading)
      → contains id (after_readings state rs).keep_ids
        ≡ (contains id state.keep_ids || any (kept_directly c id) rs)
  unfolding after_readings after_reading record_complete record_incomplete
  keep_ids-after id state [] = ground arith
  keep_ids-after id state (r ∷ rs) = ground (arith, keep_ids-after id (after_reading state r) rs)

  daily-after :
      (state : State) (rs : List Reading)
      → (after_readings state rs).daily ≡ best_all state.daily (day_entries c rs)
  unfolding after_readings after_reading record_complete record_incomplete best_all
  daily-after state [] = refl
  daily-after state (r ∷ rs) = ground (arith, daily-after (after_reading state r) rs)

  monthly-after :
      (state : State) (rs : List Reading)
      → (after_readings state rs).monthly ≡ best_all state.monthly (month_entries rs)
  unfolding after_readings after_reading record_complete record_incomplete best_all
  monthly-after state [] = refl
  monthly-after state (r ∷ rs) = ground (arith, monthly-after (after_reading state r) rs)

  module _ (local_time : DateTime → DateTime) where
    record_retained-reading :
        (state : State) (row : SnapshotRecord) (r : Reading)
        → read_snapshot local_time row ≡ ok r
        → record_retained_snapshot_id local_time c state row ≡ ok (after_reading state r)
    unfolding read_snapshot record_retained_snapshot_id after_reading
    record_retained-reading state row r h = ground arith

    record_rows-readings :
        (state : State) (rows : List SnapshotRecord) (rs : List Reading)
        → read_snapshots local_time rows ≡ ok rs
        → record_rows local_time c state rows ≡ ok (after_readings state rs)
    unfolding read_snapshots record_rows after_readings
    record_rows-readings state [] rs h = let e : [] ≡ rs = ground arith in rw (← e)
    record_rows-readings state (row ∷ rows) rs h =
        let (r, first, more) = >>=-eq-ok (read_snapshot local_time row) _ h in
        let (tail, rest, done) = >>=-eq-ok (read_snapshots local_time rows) _ more in
        let e : r ∷ tail ≡ rs = ground arith in
        rw (record_retained-reading state row r first, ← e)
          (record_rows-readings (after_reading state r) rows tail rest)

  -- the ids of the representatives of some entries are those of the greatest of some bucket
  representative_iff {ℓ} :
      {K : Type ℓ} ⦃e : Eq K⦄ (id : ℕ) (entries : List (K × Representative))
      → (has_id id (best_all [] entries) ≡ true)
        ↔ ((k : K) × (v : Representative) × IsGreatest v (values_of k entries) × (v.id ≡ id))
  unfolding lookup
  representative_iff id entries = (
    λ h.
        let (k, v, found, same) =
          has_id-lookup id (best_all [] entries) (best_all-DistinctKeys [] entries tt) h in
        (k, v, (greatest_iff v _).0 (sym (lookup-best_all k [] entries) ∙ found), same),
    λ h.
        let (k, v, greatest, same) = h in
        subst (λ i. has_id i (best_all [] entries) ≡ true) same
          (lookup-has_id k v (best_all [] entries)
            (lookup-best_all k [] entries ∙ (greatest_iff v _).1 greatest)),
  )

  contains-retained_ids :
      (id : ℕ) (rs : List Reading)
      → contains id (retained_ids (after_readings empty_state rs)) ≡ (
          any (kept_directly c id) rs
          || (has_id id (best_all [] (day_entries c rs))
              || has_id id (best_all [] (month_entries rs))))
  unfolding retained_ids
  contains-retained_ids id rs =
      let state = after_readings empty_state rs in
      contains-sorted id
        (distinct (state.keep_ids ++ (value_ids state.daily ++ value_ids state.monthly)))
      ∙ contains-distinct id (state.keep_ids ++ (value_ids state.daily ++ value_ids state.monthly))
      ∙ ground (
        arith,
        any-append (λ (x : ℕ). x == id) state.keep_ids
            (value_ids state.daily ++ value_ids state.monthly),
        any-append (λ (x : ℕ). x == id) (value_ids state.daily) (value_ids state.monthly),
        contains-value_ids id state.daily,
        contains-value_ids id state.monthly,
        keep_ids-after id empty_state rs,
        daily-after empty_state rs,
        monthly-after empty_state rs,
      )

  IsKept-iff :
      (id : ℕ) (rs : List Reading)
      → (contains id (retained_ids (after_readings empty_state rs)) ≡ true) ↔ IsKept c rs id
  IsKept-iff id rs = (
    λ h. split (sym (contains-retained_ids id rs) ∙ h),
    λ h. contains-retained_ids id rs ∙ join h,
  )
    where
      split :
          (any (kept_directly c id) rs
              || (has_id id (best_all [] (day_entries c rs))
                  || has_id id (best_all [] (month_entries rs))))
            ≡ true
          → IsKept c rs id
      split h = elim (Bool-cases (any (kept_directly c id) rs)) [
        | inl now ↦ directly now
        | inr not_now ↦ elim (Bool-cases (has_id id (best_all [] (day_entries c rs)))) [
          | inl day ↦
              let (k, v, g, same) = (representative_iff id (day_entries c rs)).0 day in
              latest_of_day k v g same
          | inr not_day ↦
              let (k, v, g, same) =
                (representative_iff id (month_entries rs)).0
                  (last_of_three _ _ _ h not_now not_day) in
              latest_of_month k v g same
        ]
      ]

      join :
          IsKept c rs id
          → (any (kept_directly c id) rs
              || (has_id id (best_all [] (day_entries c rs))
                  || has_id id (best_all [] (month_entries rs))))
            ≡ true
      join (directly h) = ground arith
      join (latest_of_day k v g same) =
          let h = (representative_iff id (day_entries c rs)).1 (k, v, g, same) in ground arith
      join (latest_of_month k v g same) =
          let h = (representative_iff id (month_entries rs)).1 (k, v, g, same) in ground arith

-- Where the cutoffs exist and every timestamp reads, the selection succeeds, and keeps exactly: the
-- COMPLETE snapshots of the hourly window, the others of the diagnostic window, and of each root
-- the latest COMPLETE snapshot of each day of the daily window and of each month.
pub select_retained_snapshot_ids_iff :
    (local_time : DateTime → DateTime) (policy : RetentionPolicy) (now : DateTime)
    (rows : List SnapshotRecord) (c : Cutoffs) (rs : List Reading)
    → cutoffs policy now ≡ ok c
    → read_snapshots local_time rows ≡ ok rs
    → (ids : List ℕ) × (select_retained_snapshot_ids local_time policy now rows ≡ ok ids)
      × ((id : ℕ) → (contains id ids ≡ true) ↔ IsKept c rs id)
unfolding select_retained_snapshot_ids
select_retained_snapshot_ids_iff local_time policy now rows c rs cut read = (
  retained_ids (after_readings c empty_state rs),
  rw (cut, record_rows-readings c local_time empty_state rows rs read),
  λ id. IsKept-iff c id rs,
)
