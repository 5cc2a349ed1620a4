-- ===== src/Db/Promote/History.antt =====
-- The stored history after a promotion: what every query about one path returns.
use watchdirs.Prelude.{
  ℕ, suc, ◌≡◌, refl, ◌∙◌, sym, ◌≤◌, ◌<◌, String, true, false, Option, none, some, List, [], ◌∷◌,
  ◌⊎◌, inl, inr, ap, arith, all-append, Option-cases, length,
}
use watchdirs.Prelude.Dict.{
  lookup, string_eq, nat_eq, of_rows, of_rows-DistinctKeys, lookup-of_rows, values_of, last_or,
}
use watchdirs.Db.Tables.{StateColumns, Interval, ok, states_at}
use watchdirs.Db.Promote.Defs.{
  close_interval, version, close_vanished, active_rows, promote_intervals,
}
use watchdirs.Db.Promote.Effects.{Settled, settled}
use watchdirs.Db.Promote.Vanished.{
  option_list, close_vanished-Settled, close_vanished_keeps, close_vanished_gone,
}
use watchdirs.Db.Promote.Versions.{
  after_row, after_rows, after_rows_keeps, after_rows_at, promote_rows-ok,
}

-- The versions of a root before a snapshot is promoted: they lie before it, and no path has two
-- that are still open.
pub record IsHistory (snapshot : ℕ) (root : String) (rows : List Interval) : Type 0 where
  pub settles : (q : ℕ) → Settled snapshot root q rows
  pub single : (q : ℕ) → length (states_at root q snapshot rows) ≤ 1

module _ (snapshot : ℕ) (root : String) where
  -- the open versions of a path are what the query finds from the snapshot on
  values_of-active_rows :
      (q s : ℕ) (rows : List Interval)
      → snapshot ≤ s
      → Settled snapshot root q rows
      → values_of q (active_rows snapshot root rows) ≡ states_at root q s rows
  unfolding active_rows
  values_of-active_rows q s [] late h = refl
  values_of-active_rows q s (i ∷ rows) late h =
      ground (arith, values_of-active_rows q s rows, string_eq.beq_iff i.root_path root)

  option_list-last_or {ℓ} :
      {A : Type ℓ} (vs : List A) → length vs ≤ 1 → option_list (last_or none vs) ≡ vs
  option_list-last_or [] h = refl
  option_list-last_or (v ∷ []) h = refl
  option_list-last_or (v ∷ w ∷ vs) h = absurd (omega arith)

  active_lookup :
      (q s : ℕ) (rows : List Interval)
      → snapshot ≤ s
      → IsHistory snapshot root rows
      → states_at root q s rows ≡ option_list (lookup q (of_rows (active_rows snapshot root rows)))
  active_lookup q s rows late h =
      let now = values_of-active_rows q snapshot rows (omega arith) (h.settles q) in
      sym (
        ap option_list (lookup-of_rows q (active_rows snapshot root rows))
        ∙ option_list-last_or (values_of q (active_rows snapshot root rows)) (rw now (h.single q))
        ∙ values_of-active_rows q s rows late (h.settles q))

  Settled-suc :
      (q : ℕ) (rows : List Interval)
      → Settled snapshot root q rows
      → Settled (suc snapshot) root q rows
  Settled-suc q [] h = refl
  Settled-suc q (i ∷ rows) h = ground (arith, Settled-suc q rows)

  close_interval-next :
      (p q : ℕ) (rows : List Interval)
      → Settled (suc snapshot) root q rows
      → Settled (suc snapshot) root q (close_interval snapshot root p rows)
  unfolding close_interval
  close_interval-next p q [] h = refl
  close_interval-next p q (i ∷ rows) h = ground (arith, close_interval-next p q rows)

  close_vanished-next :
      (q : ℕ) (current active : List (ℕ × StateColumns)) (rows : List Interval)
      → Settled (suc snapshot) root q rows
      → Settled (suc snapshot) root q (close_vanished snapshot root current active rows)
  unfolding close_vanished
  close_vanished-next q current [] rows h = h
  close_vanished-next q current ((p, state) ∷ active) rows h =
      elim (Option-cases (lookup p current)) [
        | inl e ↦ rw e (
            close_vanished-next q current active (close_interval snapshot root p rows)
              (close_interval-next p q rows h))
        | inr (x, e) ↦ rw e (close_vanished-next q current active rows h)
      ]

  after_row-next :
      (active : List (ℕ × StateColumns)) (p : ℕ) (state : StateColumns) (q : ℕ)
      (rows : List Interval)
      → Settled (suc snapshot) root q rows
      → Settled (suc snapshot) root q (after_row snapshot root active p state rows)
  unfolding after_row
  after_row-next active p state q rows h =
      let added : settled (suc snapshot) root q (version snapshot root p state) ≡ true =
        ground arith in
      ground (
        arith,
        added,
        close_interval-next p q rows h,
        all-append (settled (suc snapshot) root q) rows (version snapshot root p state ∷ []),
        all-append (settled (suc snapshot) root q) (close_interval snapshot root p rows)
            (version snapshot root p state ∷ []),
      )

  after_rows-next :
      (active current : List (ℕ × StateColumns)) (q : ℕ) (rows : List Interval)
      → Settled (suc snapshot) root q rows
      → Settled (suc snapshot) root q (after_rows snapshot root active current rows)
  unfolding after_rows
  after_rows-next active [] q rows h = h
  after_rows-next active ((p, state) ∷ current) q rows h =
      after_rows-next active current q (after_row snapshot root active p state rows)
        (after_row-next active p state q rows h)

-- The outcome of a promotion.
pub record Promoted (snapshot : ℕ) (root : String) (rows : List (ℕ × StateColumns))
    (before after : List Interval) : Type 0 where
  -- from the snapshot on a query finds the row of the snapshot, once, or nothing
  pub at_snapshot :
      (q s : ℕ) → snapshot ≤ s → states_at root q s after ≡ option_list (lookup q (of_rows rows))
  -- earlier snapshots and other roots are as they were
  pub elsewhere :
      (root' : String) (q s : ℕ)
      → (s < snapshot) ⊎ (string_eq.beq root root' ≡ false)
      → states_at root' q s after ≡ states_at root' q s before
  pub history : IsHistory (suc snapshot) root after

module _ (snapshot : ℕ) (root : String) (rows : List (ℕ × StateColumns))
    (before : List Interval) where
  abbrev current : List (ℕ × StateColumns)
  current = of_rows rows

  abbrev active : List (ℕ × StateColumns)
  active = of_rows (active_rows snapshot root before)

  abbrev closed : List Interval
  closed = close_vanished snapshot root current active before

  abbrev after : List Interval
  after = after_rows snapshot root active current closed

  after_at :
      (q s : ℕ)
      → snapshot ≤ s
      → IsHistory snapshot root before
      → states_at root q s after ≡ option_list (lookup q current)
  after_at q s late h =
      let was = active_lookup snapshot root q s before late h in
      elim (Option-cases (lookup q current)) [
        | inl gone ↦ rw gone (
            after_rows_keeps snapshot root active root q s current closed (inr (inr gone))
            ∙ close_vanished_gone snapshot root current q s late gone active before (h.settles q)
                was)
        | inr (state, found) ↦ rw found (
            after_rows_at snapshot root active q s state current closed late
              (of_rows-DistinctKeys rows)
              (close_vanished-Settled snapshot root current q active before (h.settles q))
              (close_vanished_keeps snapshot root current root q s active before
                  (inr (inr (λ e. cc)))
                ∙ was)
              found)
      ]

  after_elsewhere :
      (root' : String) (q s : ℕ)
      → (s < snapshot) ⊎ (string_eq.beq root root' ≡ false)
      → states_at root' q s after ≡ states_at root' q s before
  after_elsewhere root' q s (inl h) =
      after_rows_keeps snapshot root active root' q s current closed (inl h)
      ∙ close_vanished_keeps snapshot root current root' q s active before (inl h)
  after_elsewhere root' q s (inr h) =
      after_rows_keeps snapshot root active root' q s current closed (inr (inl h))
      ∙ close_vanished_keeps snapshot root current root' q s active before (inr (inl h))

  length-option_list {ℓ} : {A : Type ℓ} (o : Option A) → length (option_list o) ≤ 1
  length-option_list none = omega arith
  length-option_list (some a) = omega arith

  -- Promoting the rows of a snapshot on a well-formed history succeeds. From the snapshot on, a
  -- query for a path of the root returns the path's last row, or nothing where it has no row; a
  -- query before the snapshot or of another root returns what it did; and the history is well formed
  -- for the next snapshot.
  pub promote_intervals-Promoted :
      IsHistory snapshot root before
      → (out : List Interval) × (promote_intervals snapshot root rows before ≡ ok out)
        × Promoted snapshot root rows before out
  unfolding promote_intervals
  promote_intervals-Promoted h = (
    after,
    promote_rows-ok snapshot root active current closed (of_rows-DistinctKeys rows)
        (λ q _. close_vanished-Settled snapshot root current q active before (h.settles q)),
    record {
      at_snapshot = λ q s late. after_at q s late h;
      elsewhere = after_elsewhere;
      history = record {
        settles = λ q. after_rows-next snapshot root active current q closed (
            close_vanished-next snapshot root q current active before
              (Settled-suc snapshot root q before (h.settles q)));
        single = λ q. rw (after_at q (suc snapshot) (omega arith) h) (length-option_list _);
      };
    },
  )
