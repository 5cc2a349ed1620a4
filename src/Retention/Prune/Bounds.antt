-- ===== src/Retention/Prune/Bounds.antt =====
-- The bounds of normalized intervals: the UPDATE of db/retention.py violates no constraint where no
-- two versions of a path overlap.
use watchdirs.Prelude.{
  All, All-append, All-map, All-filter, ◌++◌, false, ℕ, ◌≡◌, ◌≤◌, refl, ◌∙◌, inl, inr, String, Bool,
  true, ◌&&◌, Option, none, some, List, [], ◌∷◌, arith, ltb, any, Option-cases, Bool-cases, Member,
  ap, sym,
}
use watchdirs.Prelude.Dict.{string_eq}
use watchdirs.Model.{SnapshotRecord}
use watchdirs.Db.Tables.{Interval, below_end, covers, same_path}
use watchdirs.Retention.Policy.{ok}
use watchdirs.Db.Promote.{conflicts}
use watchdirs.Retention.Prune.{
  updated, retained_complete, min_where, delete_uncovered, update_bounds,
}

-- the least of the ids that satisfy a test is below each that does, and satisfies it
pub min_where-le :
    (p : ℕ → Bool) (ids : List ℕ) (s : ℕ)
    → Member s ids
    → p s ≡ true
    → (m : ℕ) × (min_where p ids ≡ some m) × (m ≤ s)
min_where-le p [] s here h = elim here [ ]
min_where-le p (x ∷ xs) s (inl e) h = elim (Option-cases (min_where p xs)) [
  | inl empty ↦ (x, ground arith, omega arith)
  | inr (m, found) ↦ elim (Bool-cases (ltb x m)) [
    | inl less ↦ (x, ground arith, omega arith)
    | inr more ↦ (m, ground arith, ground arith)
  ]
]
min_where-le p (x ∷ xs) s (inr there) h =
    let (m, found, le) = min_where-le p xs s there h in
    elim (Bool-cases (p x && ltb x m)) [
      | inl less ↦ (x, ground arith, ground arith)
      | inr more ↦ (m, ground arith, le)
    ]

pub min_where-holds : (p : ℕ → Bool) (ids : List ℕ) (m : ℕ) → min_where p ids ≡ some m → p m ≡ true
min_where-holds p [] m h = cc
min_where-holds p (x ∷ xs) m h = ground (arith, min_where-holds p xs m)

any-min_where :
    (p : ℕ → Bool) (ids : List ℕ) → any p ids ≡ true → (m : ℕ) × (min_where p ids ≡ some m)
any-min_where p [] h = absurd (ground arith)
any-min_where p (x ∷ xs) h = elim (Option-cases (min_where p xs)) [
  | inl empty ↦ elim (Bool-cases (p x)) [
    | inl here ↦ (x, ground arith)
    | inr not_here ↦ let (m, found) = any-min_where p xs (ground arith) in absurd (ground arith)
  ]
  | inr (m, found) ↦ elim (Bool-cases (p x && ltb x m)) [
    | inl less ↦ (x, ground arith)
    | inr more ↦ (m, ground arith)
  ]
]

-- Two versions of one path have no snapshot in common.
abbrev pub IsApart : Interval → Interval → Type 0
IsApart i k =
    same_path i.root_path i.path_id k ≡ true → (s : ℕ) → covers s i ≡ true → covers s k ≡ false

abbrev pub IsDisjoint : List Interval → Type 0
IsDisjoint [] = Unit
IsDisjoint (i ∷ rows) = All (IsApart i) rows × IsDisjoint rows

-- no row of the same path starts where the interval is valid
abbrev pub AreClear : List Interval → Interval → Type 0
AreClear done i =
    All (λ d. same_path i.root_path i.path_id d ≡ true → covers d.valid_from i ≡ false) done

any_none {ℓ} :
    {A : Type ℓ} (p : A → Bool) (xs : List A) → All (λ x. p x ≡ false) xs → any p xs ≡ false
any_none p [] h = refl
any_none p (x ∷ xs) h = rw (h.0) (any_none p xs h.1)

same_path_sym :
    (i k : Interval)
    → same_path i.root_path i.path_id k ≡ true
    → same_path k.root_path k.path_id i ≡ true
same_path_sym i k h =
    let root = sym ((string_eq.beq_iff k.root_path i.root_path).0 (ground (arith, h))) in
    let back = (string_eq.beq_iff i.root_path k.root_path).1 root in ground (arith, h, back)

below_end_earlier : (t : Option ℕ) (s u : ℕ) → s ≤ u → below_end u t ≡ true → below_end s t ≡ true
below_end_earlier none s u le h = refl
below_end_earlier (some t) s u le h = ground (arith, le, h)

module _ (retained : List ℕ) (snapshots : List SnapshotRecord) where
  abbrev ids_of : String → List ℕ
  ids_of root = retained_complete retained root snapshots

  -- the UPDATE meets no NULL bound after the DELETE, and two rows that do not overlap do not get
  -- the same start
  abbrev pub IsCovered : Interval → Type 0
  IsCovered i = any (λ u. covers u i) (ids_of i.root_path) ≡ true

  covered_start :
      (i : Interval) (ids : List ℕ)
      → any (λ u. covers u i) ids ≡ true
      → covers i.valid_from i ≡ true
  covered_start i [] h = absurd (ground (arith, h))
  covered_start i (u ∷ ids) h = elim (Bool-cases (covers u i)) [
    | inl here ↦
        let begun : i.valid_from ≤ u = ground (arith, here) in
        let ends : below_end u i.valid_to ≡ true = ground (arith, here) in
        let early = below_end_earlier i.valid_to i.valid_from u begun ends in ground (arith, early)
    | inr not_here ↦ covered_start i ids (ground (arith, h, not_here))
  ]

  module _ (start : ℕ) (i : Interval) (at_start : covers start i ≡ true) where
    free_of :
        (d : Interval)
        → (same_path i.root_path i.path_id d ≡ true → covers d.valid_from i ≡ false)
        → conflicts (updated retained snapshots start i) d ≡ false
    free_of d clear = elim (Bool-cases (conflicts (updated retained snapshots start i) d)) [
      | inr free ↦ free
      | inl clash ↦
          let same : same_path i.root_path i.path_id d ≡ true = ground (arith, clash) in
          let e : d.valid_from ≡ start = ground (arith, clash) in
          let gone = clear same in
          let there : covers d.valid_from i ≡ true = ap (λ s. covers s i) e ∙ at_start in
          absurd (ground (arith, gone, there))
    ]

    free_after :
        (rows : List Interval)
        → All (IsApart i) rows
        → All IsCovered rows
        → All (λ d. conflicts (updated retained snapshots start i) d ≡ false) rows
    free_after [] apart starts = tt
    free_after (k ∷ rows) apart starts =
        let own = covered_start k (ids_of k.root_path) starts.0 in
        let clear : same_path i.root_path i.path_id k ≡ true → covers k.valid_from i ≡ false =
          λ same. elim (Bool-cases (covers k.valid_from i)) [
            | inr no_ ↦ no_
            | inl yes_ ↦
                let gone = apart.0 same k.valid_from yes_ in absurd (ground (arith, gone, own))
          ] in
        (free_of k clear, free_after rows apart.1 starts.1)

    AreClear-append :
        (done rows : List Interval)
        → All (IsApart i) rows
        → All (AreClear done) rows
        → All (AreClear (done ++ (updated retained snapshots start i ∷ []))) rows
    AreClear-append done [] apart clear = tt
    AreClear-append done (k ∷ rows) apart clear = (
      All-append (λ d. same_path k.root_path k.path_id d ≡ true → covers d.valid_from k ≡ false)
          done (updated retained snapshots start i ∷ []) clear.0
          ((λ same. apart.0 (same_path_sym k i same) start at_start), tt),
      AreClear-append done rows apart.1 clear.1,
    )

  update_bounds_step :
      (done : List Interval) (i : Interval) (rows : List Interval) (start : ℕ) (out : List Interval)
      → min_where (λ u. covers u i) (ids_of i.root_path) ≡ some start
      → any (conflicts (updated retained snapshots start i)) (done ++ rows) ≡ false
      → update_bounds retained snapshots (done ++ (updated retained snapshots start i ∷ [])) rows
        ≡ ok out
      → update_bounds retained snapshots done (i ∷ rows)
        ≡ ok (updated retained snapshots start i ∷ out)
  unfolding update_bounds
  update_bounds_step done i rows start out found free ends = ground (arith, found, free, ends)

  pub update_bounds-ok :
      (done rows : List Interval)
      → IsDisjoint rows
      → All IsCovered rows
      → All (AreClear done) rows
      → (out : List Interval) × (update_bounds retained snapshots done rows ≡ ok out)
  update_bounds-ok done [] apart starts clear = ([], unfold update_bounds in refl)
  update_bounds-ok done (i ∷ rows) apart starts clear =
      let (start, found) = any-min_where (λ u. covers u i) (ids_of i.root_path) starts.0 in
      let at_start = min_where-holds (λ u. covers u i) (ids_of i.root_path) start found in
      let new = updated retained snapshots start i in
      let free : any (conflicts new) (done ++ rows) ≡ false =
        any_none (conflicts new) (done ++ rows) (
          All-append (λ d. conflicts new d ≡ false) done rows
            (All-map (λ d k. free_of start i at_start d k) done clear.0)
            (free_after start i at_start rows apart.0 starts.1)) in
      let more = AreClear-append start i at_start done rows apart.0 clear.1 in
      let (out, ends) = update_bounds-ok (done ++ (new ∷ [])) rows apart.1 starts.1 more in
      (new ∷ out, update_bounds_step done i rows start out found free ends)

  pub delete_uncovered-keeps :
      (rows : List Interval)
      → IsDisjoint rows
      → IsDisjoint (delete_uncovered retained snapshots rows)
        × All IsCovered (delete_uncovered retained snapshots rows)
  unfolding delete_uncovered
  delete_uncovered-keeps [] h = (tt, tt)
  delete_uncovered-keeps (i ∷ rows) h =
      let ih = delete_uncovered-keeps rows h.1 in
      elim (Bool-cases (any (λ u. covers u i) (ids_of i.root_path))) [
        | inr drop ↦ rw drop ih
        | inl keep ↦ rw keep ((All-filter (IsApart i) _ rows h.0, ih.0), (keep, ih.1))
      ]

pub all_unit : (rows : List Interval) → All (AreClear []) rows
all_unit [] = tt
all_unit (i ∷ rows) = (tt, all_unit rows)
