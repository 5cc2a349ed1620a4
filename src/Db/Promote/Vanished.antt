-- ===== src/Db/Promote/Vanished.antt =====
-- The loop of the promotion over the paths that have vanished.
use watchdirs.Prelude.{
  ℕ, ◌≡◌, refl, ◌∙◌, ◌≤◌, ◌<◌, String, false, Option, none, some, List, [], ◌∷◌, ◌≢◌, ◌⊎◌, inl, inr,
  ap, arith, ◌==◌, ==_iff, Option-cases, Bool-cases, subst,
}
use watchdirs.Prelude.Dict.{lookup, string_eq, nat_eq}
use watchdirs.Db.Tables.{StateColumns, Interval, states_at}
use watchdirs.Db.Promote.Defs.{close_interval, close_vanished}
use watchdirs.Db.Promote.Effects.{
  Settled, same_key, close_interval_other, close_interval_before, close_interval_self,
  close_interval-Settled,
}

abbrev pub option_list {ℓ} : {A : Type ℓ} → Option A → List A
option_list none = []
option_list (some a) = a ∷ []

module _ (snapshot : ℕ) (root : String) (p : ℕ) where
  -- closing a path keeps the answers about other paths, other roots and earlier snapshots
  pub close_interval_keeps :
      (root' : String) (q s : ℕ) (rows : List Interval)
      → (s < snapshot) ⊎ (same_key root p root' q ≡ false)
      → states_at root' q s (close_interval snapshot root p rows) ≡ states_at root' q s rows
  close_interval_keeps root' q s rows (inl h) =
      close_interval_before snapshot root p root' q s rows h
  close_interval_keeps root' q s rows (inr h) =
      close_interval_other snapshot root p root' q s rows h

module _ (snapshot : ℕ) (root : String) (current : List (ℕ × StateColumns)) where
  pub close_vanished-Settled :
      (q : ℕ) (active : List (ℕ × StateColumns)) (rows : List Interval)
      → Settled snapshot root q rows
      → Settled snapshot root q (close_vanished snapshot root current active rows)
  unfolding close_vanished
  close_vanished-Settled q [] rows h = h
  close_vanished-Settled q ((p, state) ∷ active) rows h = elim (Option-cases (lookup p current)) [
    | inl e ↦ rw e (
        close_vanished-Settled q active (close_interval snapshot root p rows)
          (close_interval-Settled snapshot root p root q rows h))
    | inr (x, e) ↦ rw e (close_vanished-Settled q active rows h)
  ]

  -- closing one path that is gone keeps what is asked about the paths that are there
  other_key :
      (root' : String) (p q s : ℕ)
      → (s < snapshot) ⊎ (string_eq.beq root root' ≡ false) ⊎ (lookup q current ≢ none)
      → lookup p current ≡ none
      → (s < snapshot) ⊎ (same_key root p root' q ≡ false)
  other_key root' p q s (inl h) e = inl h
  other_key root' p q s (inr (inl h)) e = inr (ground arith)
  other_key root' p q s (inr (inr h)) e = elim (Bool-cases (p == q)) [
    | inl same ↦ absurd (h (subst (λ k. lookup k current ≡ none) ((==_iff p q).0 same) e))
    | inr ne ↦ inr (ground arith)
  ]

  pub close_vanished_keeps :
      (root' : String) (q s : ℕ) (active : List (ℕ × StateColumns)) (rows : List Interval)
      → (s < snapshot) ⊎ (string_eq.beq root root' ≡ false) ⊎ (lookup q current ≢ none)
      → states_at root' q s (close_vanished snapshot root current active rows)
        ≡ states_at root' q s rows
  unfolding close_vanished
  close_vanished_keeps root' q s [] rows h = refl
  close_vanished_keeps root' q s ((p, state) ∷ active) rows h =
      elim (Option-cases (lookup p current)) [
        | inl e ↦ rw e (
            close_vanished_keeps root' q s active (close_interval snapshot root p rows) h
            ∙ close_interval_keeps snapshot root p root' q s rows (other_key root' p q s h e))
        | inr (x, e) ↦ rw e (close_vanished_keeps root' q s active rows h)
      ]

  module _ (q s : ℕ) (late : snapshot ≤ s) (gone : lookup q current ≡ none) where
    close_vanished_empty :
        (active : List (ℕ × StateColumns)) (rows : List Interval)
        → Settled snapshot root q rows
        → states_at root q s rows ≡ []
        → states_at root q s (close_vanished snapshot root current active rows) ≡ []
    unfolding close_vanished
    close_vanished_empty [] rows h e = e
    close_vanished_empty ((p, state) ∷ active) rows h e = elim (Option-cases (lookup p current)) [
      | inr (x, there) ↦ rw there (close_vanished_empty active rows h e)
      | inl absent ↦ rw absent (
          close_vanished_empty active (close_interval snapshot root p rows)
            (close_interval-Settled snapshot root p root q rows h)
            (elim (Bool-cases (p == q)) [
              | inl same ↦
                  rw ((==_iff p q).0 same) (close_interval_self snapshot root q s rows late h)
              | inr ne ↦ close_interval_other snapshot root p root q s rows (ground arith) ∙ e
            ]))
    ]

    -- A path that has vanished has no state from this snapshot on.
    pub close_vanished_gone :
        (active : List (ℕ × StateColumns)) (rows : List Interval)
        → Settled snapshot root q rows
        → states_at root q s rows ≡ option_list (lookup q active)
        → states_at root q s (close_vanished snapshot root current active rows) ≡ []
    unfolding close_vanished lookup
    close_vanished_gone [] rows h e = e
    close_vanished_gone ((p, state) ∷ active) rows h e = elim (Bool-cases (p == q)) [
      | inl same ↦ rw (ap (λ k. lookup k current) ((==_iff p q).0 same) ∙ gone) (
          close_vanished_empty active (close_interval snapshot root p rows)
            (close_interval-Settled snapshot root p root q rows h)
            (rw ((==_iff p q).0 same) (close_interval_self snapshot root q s rows late h)))
      | inr ne ↦ elim (Option-cases (lookup p current)) [
        | inr (x, there) ↦ rw there (close_vanished_gone active rows h (ground arith))
        | inl absent ↦ rw absent (
            close_vanished_gone active (close_interval snapshot root p rows)
              (close_interval-Settled snapshot root p root q rows h)
              (close_interval_other snapshot root p root q s rows (ground arith) ∙ (ground arith)))
      ]
    ]
