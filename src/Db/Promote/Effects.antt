-- ===== src/Db/Promote/Effects.antt =====
-- What closing an interval and adding a version do to the states that a query returns.
use watchdirs.Prelude.{
  ℕ, ◌≡◌, refl, ◌≤◌, ◌<◌, String, Bool, true, false, ◌&&◌, ◌||◌, not, Option, none, some, List, [],
  ◌∷◌, ◌++◌, arith, ltb, leb, ◌==◌, any, all,
}
use watchdirs.Prelude.Dict.{string_eq}
use watchdirs.Db.Tables.{StateColumns, Interval, same_path, states_at}
use watchdirs.Db.Promote.Defs.{close_interval, conflicts, version}

abbrev pub closed_by : ℕ → Option ℕ → Bool
closed_by snapshot none = true
closed_by snapshot (some t) = leb t snapshot

-- The versions of a path began before the snapshot, and ended by it if they ended.
abbrev pub settled : ℕ → String → ℕ → Interval → Bool
settled snapshot root p i =
    not (same_path root p i) || (ltb i.valid_from snapshot && closed_by snapshot i.valid_to)

abbrev pub Settled : ℕ → String → ℕ → List Interval → Type 0
Settled snapshot root p rows = all (settled snapshot root p) rows ≡ true

-- the same path of the same root
abbrev pub same_key : String → ℕ → String → ℕ → Bool
same_key root p root' q = string_eq.beq root root' && p == q

pub states_at-append :
    (root : String) (p s : ℕ) (xs ys : List Interval)
    → states_at root p s (xs ++ ys) ≡ states_at root p s xs ++ states_at root p s ys
states_at-append root p s [] ys = refl
states_at-append root p s (i ∷ xs) ys = ground (arith, states_at-append root p s xs ys)

module _ (snapshot : ℕ) (root : String) (p : ℕ) where
  pub close_interval_other :
      (root' : String) (q s : ℕ) (rows : List Interval)
      → same_key root p root' q ≡ false
      → states_at root' q s (close_interval snapshot root p rows) ≡ states_at root' q s rows
  unfolding close_interval
  close_interval_other root' q s [] h = refl
  close_interval_other root' q s (i ∷ rows) h = ground (
    arith,
    close_interval_other root' q s rows,
    string_eq.beq_iff i.root_path root,
    string_eq.beq_iff i.root_path root',
    string_eq.beq_iff root root',
  )

  pub close_interval_before :
      (root' : String) (q s : ℕ) (rows : List Interval)
      → s < snapshot
      → states_at root' q s (close_interval snapshot root p rows) ≡ states_at root' q s rows
  unfolding close_interval
  close_interval_before root' q s [] h = refl
  close_interval_before root' q s (i ∷ rows) h =
      ground (arith, close_interval_before root' q s rows)

  pub close_interval_self :
      (s : ℕ) (rows : List Interval)
      → snapshot ≤ s
      → Settled snapshot root p rows
      → states_at root p s (close_interval snapshot root p rows) ≡ []
  unfolding close_interval
  close_interval_self s [] h settle = refl
  close_interval_self s (i ∷ rows) h settle = ground (arith, close_interval_self s rows)

  pub close_interval-Settled :
      (root' : String) (q : ℕ) (rows : List Interval)
      → Settled snapshot root' q rows
      → Settled snapshot root' q (close_interval snapshot root p rows)
  unfolding close_interval
  close_interval-Settled root' q [] settle = refl
  close_interval-Settled root' q (i ∷ rows) settle =
      ground (arith, close_interval-Settled root' q rows)

  pub no_conflict :
      (state : StateColumns) (rows : List Interval)
      → Settled snapshot root p rows
      → any (conflicts (version snapshot root p state)) rows ≡ false
  no_conflict state [] settle = refl
  no_conflict state (i ∷ rows) settle = ground (arith, no_conflict state rows)
