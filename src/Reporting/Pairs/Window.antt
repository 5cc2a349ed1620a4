-- ===== src/Reporting/Pairs/Window.antt =====
-- Which two snapshots of a root reporting/pairs.py compares.
use watchdirs.Prelude.{
  ℕ, ◌+◌, ◌-◌, ◌≡◌, ◌≤◌, refl, String, true, false, Option, none, some, List, [], ◌∷◌, sorted, All,
  All-sorted, Member, arith, inl, length,
}
use watchdirs.Prelude.Sorting.{
  init_of, last_of, last_where, IsSorted, sorted-IsSorted, sorted-Member, All-of_sorted,
  All-init_of, last_of-Member, last_of-greatest, init_of-Member, IsSorted-init_of, last_where-none,
  last_where-Member, last_where-greatest, length-sorted, All-at,
}
use watchdirs.Model.{SnapshotRecord}
use watchdirs.Model.Time.{instant, micros_per_day}
use watchdirs.Reporting.Pairs.{returned, SnapshotPair}
use watchdirs.Reporting.Pairs.Roots.{
  Usable, usable_lt, usable_rows, at_or_before, with_baseline, resolve_sorted, resolve_root,
}

usable_lt_asym : (a b : Usable) → usable_lt a b ≡ true → usable_lt b a ≡ false
usable_lt_asym a b h = ground arith

usable_lt_trans :
    (a b c : Usable) → usable_lt b a ≡ false → usable_lt c b ≡ false → usable_lt c a ≡ false
usable_lt_trans a b c h k = ground arith

-- The baseline is the newest usable snapshot at or before the cutoff, or there is none there and it
-- is the oldest of all.
pub data IsBaseline (cutoff : ℕ) (us : List Usable) (b : Usable) : Type 0 where
  newest_before :
      at_or_before cutoff b ≡ true
      → All (λ u. at_or_before cutoff u ≡ true → usable_lt b u ≡ false) us
      → IsBaseline cutoff us b
  oldest :
      All (λ u. at_or_before cutoff u ≡ false) us
      → All (λ u. usable_lt u b ≡ false) us
      → IsBaseline cutoff us b

pub record IsWindow (since : ℕ) (us : List Usable) (pair : SnapshotPair) : Type 0 where
  pub baseline : Usable
  pub current : Usable
  pub baseline_place : Member baseline us
  pub current_place : Member current us
  pub baseline_pair : pair.baseline ≡ baseline.0
  pub current_pair : pair.current ≡ current.0
  -- no usable snapshot is newer than the current one
  pub newest : All (λ u. usable_lt current u ≡ false) us
  pub before : IsBaseline (instant current.1 - since) us baseline

oldest-sorted :
    (u : Usable) (us : List Usable)
    → IsSorted usable_lt (u ∷ us)
    → All (λ v. usable_lt v u ≡ false) (u ∷ us)
oldest-sorted u us h = (ground arith, h.0)

with_baseline-IsWindow :
    (since : ℕ) (root : String) (u v : Usable) (us : List Usable)
    → 1 ≤ since
    → since ≤ instant (last_of v us).1
    → IsSorted usable_lt (u ∷ v ∷ us)
    → (found : Option Usable)
    → last_where (at_or_before (instant (last_of v us).1 - since)) (u ∷ init_of v us) ≡ found
    → IsWindow since
        (u ∷ v ∷ us)
        (with_baseline root (instant (last_of v us).1 - since) u (last_of v us).0 found)
with_baseline-IsWindow since root u v us pos le sorted_ none e =
    let p = at_or_before (instant (last_of v us).1 - since) in
    let late : p (last_of v us) ≡ false = ground arith in
    record {
      baseline = u;
      current = last_of v us;
      baseline_place = inl refl;
      current_place = last_of-Member u (v ∷ us);
      baseline_pair = refl;
      current_pair = refl;
      newest = last_of-greatest usable_lt usable_lt_asym usable_lt_trans u (v ∷ us) sorted_;
      before =
          IsBaseline.oldest
            (All-init_of (λ w. p w ≡ false) u (v ∷ us) (last_where-none p (u ∷ init_of v us) e)
              late)
            (oldest-sorted u (v ∷ us) sorted_);
    }
with_baseline-IsWindow since root u v us pos le sorted_ (some b) e =
    let p = at_or_before (instant (last_of v us).1 - since) in
    let late : p (last_of v us) ≡ false = ground arith in
    let (place, holds) = last_where-Member p (u ∷ init_of v us) b e in
    record {
      baseline = b;
      current = last_of v us;
      baseline_place = init_of-Member b u (v ∷ us) place;
      current_place = last_of-Member u (v ∷ us);
      baseline_pair = refl;
      current_pair = refl;
      newest = last_of-greatest usable_lt usable_lt_asym usable_lt_trans u (v ∷ us) sorted_;
      before = IsBaseline.newest_before holds (
          All-init_of (λ w. p w ≡ true → usable_lt b w ≡ false) u (v ∷ us)
            (last_where-greatest usable_lt usable_lt_asym usable_lt_trans p (u ∷ init_of v us) b
              (IsSorted-init_of usable_lt usable_lt_asym usable_lt_trans u (v ∷ us) sorted_) e)
            (λ holds'. ground arith));
    }

resolve_sorted-IsWindow :
    (since : ℕ) (root : String) (us : List Usable)
    → 1 ≤ since
    → IsSorted usable_lt us
    → 2 ≤ length us
    → All (λ u. since + micros_per_day ≤ instant u.1) us
    → (pair : SnapshotPair) × (resolve_sorted since root us ≡ returned (some pair))
      × IsWindow since us pair
unfolding resolve_sorted
resolve_sorted-IsWindow since root [] pos s two far = absurd (omega arith)
resolve_sorted-IsWindow since root (u ∷ []) pos s two far = absurd (omega arith)
resolve_sorted-IsWindow since root (u ∷ v ∷ us) pos s two far =
    let current = last_of v us in
    let cutoff = instant current.1 - since in
    let found = last_where (at_or_before cutoff) (u ∷ init_of v us) in
    let room : since + micros_per_day ≤ instant current.1 =
      All-at (λ w. since + micros_per_day ≤ instant w.1) (v ∷ us) current far.1
        (last_of-Member v us) in
    (
      with_baseline root cutoff u current.0 found,
      ground (arith, room),
      with_baseline-IsWindow since root u v us pos (omega (arith, room)) s found refl,
    )

IsBaseline-sorted :
    (cutoff : ℕ) (us : List Usable) (b : Usable)
    → IsBaseline cutoff (sorted usable_lt us) b
    → IsBaseline cutoff us b
IsBaseline-sorted cutoff us b (newest_before at all) =
    IsBaseline.newest_before at (All-of_sorted usable_lt _ us all)
IsBaseline-sorted cutoff us b (oldest none_before all) =
    IsBaseline.oldest (All-of_sorted usable_lt _ us none_before) (All-of_sorted usable_lt _ us all)

-- A root with at least two usable rows, which all finished at least a window after the first date,
-- has a pair. It compares two usable rows: as current one the newest, and as baseline the newest that
-- finished at least `since` before it, or, where there is none, the oldest row of all. The window
-- `since` is positive.
pub resolve_root-IsWindow :
    (since : ℕ) (root : String) (rows : List SnapshotRecord)
    → 1 ≤ since
    → 2 ≤ length (usable_rows root rows)
    → All (λ u. since + micros_per_day ≤ instant u.1) (usable_rows root rows)
    → (pair : SnapshotPair) × (resolve_root since root rows ≡ returned (some pair))
      × IsWindow since (usable_rows root rows) pair
unfolding resolve_root
resolve_root-IsWindow since root rows pos two far =
    let us = usable_rows root rows in
    let (pair, done, w) =
      resolve_sorted-IsWindow since root (sorted usable_lt us) pos
        (sorted-IsSorted usable_lt usable_lt_asym usable_lt_trans us)
        (omega (arith, length-sorted usable_lt us)) (All-sorted usable_lt _ us far) in
    (
      pair,
      done,
      record {
        baseline = w.baseline;
        current = w.current;
        baseline_place = sorted-Member usable_lt w.baseline us w.baseline_place;
        current_place = sorted-Member usable_lt w.current us w.current_place;
        baseline_pair = w.baseline_pair;
        current_pair = w.current_pair;
        newest = All-of_sorted usable_lt _ us w.newest;
        before = IsBaseline-sorted _ us w.baseline w.before;
      },
    )
