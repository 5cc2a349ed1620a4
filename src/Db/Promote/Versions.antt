-- ===== src/Db/Promote/Versions.antt =====
-- The loop of the promotion over the current rows, path by path.
use mathlib.Core.Logic.{ite}
use mathlib.Core.List.{append-nil}
use watchdirs.Prelude.{
  ℕ, ◌≡◌, refl, ◌∙◌, ◌≤◌, ◌<◌, String, true, false, none, some, List, [], ◌∷◌, ◌++◌, ◌≢◌, ◌⊎◌, inl,
  inr, arith, ◌==◌, ==_iff, all-append, Bool-cases, subst,
}
use watchdirs.Prelude.Dict.{lookup, DistinctKeys, string_eq, nat_eq}
use watchdirs.Db.Tables.{StateColumns, StateColumns-discrete, Interval, ok, states_at}
use watchdirs.Db.Promote.Defs.{close_interval, insert_interval, version, promote_row, promote_rows}
use watchdirs.Db.Promote.Effects.{
  Settled, settled, same_key, states_at-append, close_interval_self, close_interval-Settled,
  no_conflict,
}
use watchdirs.Db.Promote.Vanished.{option_list, close_interval_keeps}

module _ (snapshot : ℕ) (root : String) (active : List (ℕ × StateColumns)) where
  -- the rows after one turn of the loop, if no UNIQUE constraint fails
  unfoldable pub after_row : ℕ → StateColumns → List Interval → List Interval
  after_row p state rows = elim (lookup p active) [
    | none ↦ rows ++ version snapshot root p state ∷ []
    | some prior ↦
        ite (StateColumns-discrete prior state) rows
          (close_interval snapshot root p rows ++ version snapshot root p state ∷ [])
  ]

  unfoldable pub after_rows : List (ℕ × StateColumns) → List Interval → List Interval
  after_rows [] rows = rows
  after_rows ((p, state) ∷ current) rows = after_rows current (after_row p state rows)

  promote_row-ok :
      (p : ℕ) (state : StateColumns) (rows : List Interval)
      → Settled snapshot root p rows
      → promote_row snapshot root active p state rows ≡ ok (after_row p state rows)
  unfolding promote_row after_row insert_interval
  promote_row-ok p state rows h = ground (
    arith,
    no_conflict snapshot root p state rows h,
    no_conflict snapshot root p state (close_interval snapshot root p rows)
        (close_interval-Settled snapshot root p root p rows h),
  )

  -- What a row of another path, an earlier snapshot or another root sees of one turn.
  after_row_keeps :
      (p : ℕ) (state : StateColumns) (root' : String) (q s : ℕ) (rows : List Interval)
      → (s < snapshot) ⊎ (same_key root p root' q ≡ false)
      → states_at root' q s (after_row p state rows) ≡ states_at root' q s rows
  unfolding after_row
  after_row_keeps p state root' q s rows h =
      let added : states_at root' q s (version snapshot root p state ∷ []) ≡ [] = ground arith in
      ground (
        arith,
        added,
        close_interval_keeps snapshot root p root' q s rows h,
        states_at-append root' q s rows (version snapshot root p state ∷ []),
        states_at-append root' q s (close_interval snapshot root p rows)
            (version snapshot root p state ∷ []),
        append-nil (states_at root' q s rows),
      )

  -- From its snapshot on, the path of the turn has the row's state, once.
  after_row_self :
      (p : ℕ) (state : StateColumns) (s : ℕ) (rows : List Interval)
      → snapshot ≤ s
      → Settled snapshot root p rows
      → states_at root p s rows ≡ option_list (lookup p active)
      → states_at root p s (after_row p state rows) ≡ state ∷ []
  unfolding after_row
  after_row_self p state s rows late settle e =
      let added : states_at root p s (version snapshot root p state ∷ []) ≡ state ∷ [] =
        ground (arith, string_eq.beq_iff root root) in
      ground (
        arith,
        added,
        close_interval_self snapshot root p s rows late settle,
        states_at-append root p s rows (version snapshot root p state ∷ []),
        states_at-append root p s (close_interval snapshot root p rows)
            (version snapshot root p state ∷ []),
      )

  after_row-Settled :
      (p : ℕ) (state : StateColumns) (q : ℕ) (rows : List Interval)
      → (p == q) ≡ false
      → Settled snapshot root q rows
      → Settled snapshot root q (after_row p state rows)
  unfolding after_row
  after_row-Settled p state q rows ne h =
      let added : settled snapshot root q (version snapshot root p state) ≡ true = ground arith in
      ground (
        arith,
        added,
        close_interval-Settled snapshot root p root q rows h,
        all-append (settled snapshot root q) rows (version snapshot root p state ∷ []),
        all-append (settled snapshot root q) (close_interval snapshot root p rows)
            (version snapshot root p state ∷ []),
      )

  -- a query that the rows of `current` do not touch
  abbrev pub Apart : List (ℕ × StateColumns) → String → ℕ → ℕ → Type 0
  Apart current root' q s =
      (s < snapshot) ⊎ (string_eq.beq root root' ≡ false) ⊎ (lookup q current ≡ none)

  Apart-head :
      (p : ℕ) (state : StateColumns) (current : List (ℕ × StateColumns)) (root' : String) (q s : ℕ)
      → Apart ((p, state) ∷ current) root' q s
      → ((s < snapshot) ⊎ (same_key root p root' q ≡ false)) × Apart current root' q s
  unfolding lookup
  Apart-head p state current root' q s (inl h) = (inl h, inl h)
  Apart-head p state current root' q s (inr (inl h)) = (inr (ground arith), inr (inl h))
  Apart-head p state current root' q s (inr (inr h)) = elim (Bool-cases (p == q)) [
    | inl same ↦ absurd (ground arith)
    | inr ne ↦ (inr (ground arith), inr (inr (ground arith)))
  ]

  pub after_rows_keeps :
      (root' : String) (q s : ℕ) (current : List (ℕ × StateColumns)) (rows : List Interval)
      → Apart current root' q s
      → states_at root' q s (after_rows current rows) ≡ states_at root' q s rows
  unfolding after_rows
  after_rows_keeps root' q s [] rows h = refl
  after_rows_keeps root' q s ((p, state) ∷ current) rows h =
      let (here, later) = Apart-head p state current root' q s h in
      after_rows_keeps root' q s current (after_row p state rows) later
      ∙ after_row_keeps p state root' q s rows here

  -- Every current path has its row's state, once, from the snapshot on.
  pub after_rows_at :
      (q s : ℕ) (state : StateColumns) (current : List (ℕ × StateColumns)) (rows : List Interval)
      → snapshot ≤ s
      → DistinctKeys current
      → Settled snapshot root q rows
      → states_at root q s rows ≡ option_list (lookup q active)
      → lookup q current ≡ some state
      → states_at root q s (after_rows current rows) ≡ state ∷ []
  unfolding after_rows lookup
  after_rows_at q s state [] rows late distinct settle e found = absurd (ground arith)
  after_rows_at q s state ((p, new) ∷ current) rows late distinct settle e found =
      elim (Bool-cases (p == q)) [
        | inl same ↦
            let eq : p ≡ q = (==_iff p q).0 same in
            let value : new ≡ state = ground arith in
            after_rows_keeps root q s current (after_row p new rows)
              (inr (inr (subst (λ k. lookup k current ≡ none) eq distinct.0)))
            ∙ rw (eq, value) (after_row_self q state s rows late settle e)
        | inr ne ↦
            after_rows_at q s state current (after_row p new rows) late distinct.1
              (after_row-Settled p new q rows ne settle)
              (after_row_keeps p new root q s rows (inr (ground arith)) ∙ e) (ground arith)
      ]

  pub promote_rows-ok :
      (current : List (ℕ × StateColumns)) (rows : List Interval)
      → DistinctKeys current
      → ((q : ℕ) → lookup q current ≢ none → Settled snapshot root q rows)
      → promote_rows snapshot root active current rows ≡ ok (after_rows current rows)
  unfolding promote_rows after_rows lookup
  promote_rows-ok [] rows distinct settle = refl
  promote_rows-ok ((p, state) ∷ current) rows distinct settle =
      rw (promote_row-ok p state rows (settle p (λ absent. ground (arith, ==_iff p p)))) (
        promote_rows-ok current (after_row p state rows) distinct.1 (λ q there.
          elim (Bool-cases (p == q)) [
            | inl same ↦
                absurd
                  (there (subst (λ k. lookup k current ≡ none) ((==_iff p q).0 same) distinct.0))
            | inr ne ↦
                after_row-Settled p state q rows ne (settle q (λ absent. there (ground arith)))
          ]))
