-- ===== src/Retention/Prune/Normalize.antt =====
-- Pruning keeps every answer about a retained complete snapshot.
use watchdirs.Prelude.{
  ◌++◌, ℕ, ◌≡◌, refl, ◌∙◌, inl, inr, String, Bool, true, ◌&&◌, Option, none, some, List, [], ◌∷◌,
  arith, leb, any, Option-cases, Bool-cases, Member, ap, subst, sym,
}
use watchdirs.Prelude.Dict.{string_eq}
use watchdirs.Model.{SnapshotRecord}
use watchdirs.Db.Tables.{Interval, below_end, covers, same_path, states_at}
use watchdirs.Retention.Policy.{ok, >>=-eq-ok}
use watchdirs.Db.Promote.{conflicts}
use watchdirs.Retention.Prune.{
  updated, retained_complete, min_where, normalized_end, delete_uncovered, update_bounds,
  normalize_interval_boundaries,
}
use watchdirs.Retention.Prune.Bounds.{
  min_where-le, min_where-holds, IsDisjoint, update_bounds-ok, delete_uncovered-keeps, all_unit,
}

any-Member : (p : ℕ → Bool) (ids : List ℕ) (s : ℕ) → Member s ids → p s ≡ true → any p ids ≡ true
any-Member p [] s here h = elim here [ ]
any-Member p (x ∷ xs) s (inl e) h = ground arith
any-Member p (x ∷ xs) s (inr there) h = ground (arith, any-Member p xs s there h)

-- below the normalized end is below the end, for a retained snapshot
below_normalized_end :
    (t : Option ℕ) (ids : List ℕ) (s : ℕ)
    → Member s ids
    → below_end s (normalized_end t ids) ≡ below_end s t
below_normalized_end none ids s here = refl
below_normalized_end (some t) ids s here = elim (Bool-cases (leb t s)) [
  | inl late ↦ let (m, found, le) = min_where-le (leb t) ids s here late in rw found (ground arith)
  | inr early ↦ elim (Option-cases (min_where (leb t) ids)) [
    | inl empty ↦ rw empty (ground arith)
    | inr (m, found) ↦ let above = min_where-holds (leb t) ids m found in rw found (ground arith)
  ]
]

-- a normalized interval covers the same retained snapshots
covers_normalized :
    (i : Interval) (ids : List ℕ) (start s : ℕ)
    → Member s ids
    → min_where (λ u. covers u i) ids ≡ some start
    → covers s (record i { valid_from = start; valid_to = normalized_end i.valid_to ids })
      ≡ covers s i
covers_normalized i ids start s here found =
    let ends = below_normalized_end i.valid_to ids s here in
    let first = min_where-holds (λ u. covers u i) ids start found in
    elim (Bool-cases (covers s i)) [
      | inl yes_ ↦
          let (m, same, le) = min_where-le (λ u. covers u i) ids s here yes_ in ground arith
      | inr no_ ↦ ground arith
    ]

module _ (retained : List ℕ) (snapshots : List SnapshotRecord) where
  abbrev ids_of : String → List ℕ
  ids_of root = retained_complete retained root snapshots

  module _ (root : String) (s : ℕ) (kept : Member s (ids_of root)) (p : ℕ) where
    kept_for :
        (i : Interval) → string_eq.beq i.root_path root ≡ true → Member s (ids_of i.root_path)
    kept_for i h =
        subst (λ r. Member s (ids_of r)) (sym ((string_eq.beq_iff i.root_path root).0 h)) kept

    -- what a query about the retained snapshot finds is not deleted
    covered :
        (i : Interval)
        → (same_path root p i && covers s i) ≡ true
        → any (λ u. covers u i) (ids_of i.root_path) ≡ true
    covered i h =
        any-Member (λ u. covers u i) (ids_of i.root_path) s (kept_for i (ground arith))
          (ground arith)

    states-delete_uncovered :
        (rows : List Interval)
        → states_at root p s (delete_uncovered retained snapshots rows) ≡ states_at root p s rows
    unfolding delete_uncovered
    states-delete_uncovered [] = refl
    states-delete_uncovered (i ∷ rows) = elim (Bool-cases (same_path root p i && covers s i)) [
      | inl hit ↦ ground (arith, covered i hit, states-delete_uncovered rows)
      | inr miss ↦ ground (arith, states-delete_uncovered rows)
    ]

    same_answer :
        (i : Interval) (start : ℕ)
        → min_where (λ u. covers u i) (ids_of i.root_path) ≡ some start
        → (same_path root p i
            && covers s (record i {
              valid_from = start;
              valid_to = normalized_end i.valid_to (ids_of i.root_path);
            }))
          ≡ (same_path root p i && covers s i)
    same_answer i start found = elim (Bool-cases (string_eq.beq i.root_path root)) [
      | inl here ↦
          let same = covers_normalized i (ids_of i.root_path) start s (kept_for i here) found in
          ap (λ b. same_path root p i && b) same
      | inr elsewhere ↦ ground arith
    ]

    states-update_bounds :
        (done rows out : List Interval)
        → update_bounds retained snapshots done rows ≡ ok out
        → states_at root p s out ≡ states_at root p s rows
    unfolding update_bounds
    states-update_bounds done [] out h = let e : [] ≡ out = ground arith in rw (← e)
    states-update_bounds done (i ∷ rows) out h =
        elim (Option-cases (min_where (λ u. covers u i) (ids_of i.root_path))) [
          | inl empty ↦ absurd (ground arith)
          | inr (start, found) ↦
              let new = updated retained snapshots start i in
              elim (Bool-cases (any (conflicts new) (done ++ rows))) [
                | inl clash ↦ absurd (ground arith)
                | inr free ↦
                    let (rest, finished, ends) =
                      >>=-eq-ok (update_bounds retained snapshots (done ++ (new ∷ [])) rows) _
                        (rw (found, update_bounds, free) at h) in
                    let ih = states-update_bounds (done ++ (new ∷ [])) rows rest finished in
                    let same = same_answer i start found in
                    let e : new ∷ rest ≡ out = ground arith in rw (← e) (ground arith)
              ]
        ]

none_retained :
    (root : String) (snapshots : List SnapshotRecord) → retained_complete [] root snapshots ≡ []
unfolding retained_complete
none_retained root [] = refl
none_retained root (s ∷ snapshots) = none_retained root snapshots

-- Where no two versions of a path overlap, normalizing the intervals succeeds: no constraint of the
-- table fails. And for each complete snapshot that is retained, each path of its root has the
-- states that it had: `_normalize_interval_boundaries` loses no evidence about a retained snapshot
-- and adds none.
pub normalize_interval_boundaries_keeps :
    (retained : List ℕ) (snapshots : List SnapshotRecord) (rows : List Interval)
    → IsDisjoint rows
    → (out : List Interval) × (normalize_interval_boundaries retained snapshots rows ≡ ok out)
      × ((root : String) (s p : ℕ)
          → Member s (retained_complete retained root snapshots)
          → states_at root p s out ≡ states_at root p s rows)
unfolding normalize_interval_boundaries
normalize_interval_boundaries_keeps [] snapshots rows apart =
    ([], refl, λ root s p kept. elim (rw none_retained at kept) [ ])
normalize_interval_boundaries_keeps (r ∷ rs) snapshots rows apart =
    let (disjoint, covered) = delete_uncovered-keeps (r ∷ rs) snapshots rows apart in
    let left = delete_uncovered (r ∷ rs) snapshots rows in
    let (out, done) =
      update_bounds-ok (r ∷ rs) snapshots [] left disjoint covered (all_unit left) in
    (
      out,
      done,
      λ root s p kept.
          states-update_bounds (r ∷ rs) snapshots root s kept p [] left out done
          ∙ states-delete_uncovered (r ∷ rs) snapshots root s kept p rows,
    )
