-- ===== src/Reporting/Frontier/Settled.antt =====
-- reporting/frontier.py: a candidate that is not retained has a retained ancestor that suppresses it.
use watchdirs.Prelude.{
  ℕ, suc, ◌≡◌, ◌⊎◌, inl, inr, refl, sym, subst, true, Option, none, some, List, [], ◌∷◌, Member,
  Bool-cases, ltb,
}
use watchdirs.Prelude.Bytes.{Bytes, bytes_eq→eq}
use watchdirs.Prelude.Members.{append-Member}
use watchdirs.Prelude.Sorting.{last_where, last_where-Member}
use watchdirs.Reporting.Rows.{DiffRow}
use watchdirs.Reporting.Ancestors.{ancestors}
use watchdirs.Reporting.Frontier.Scope.{
  Retained, is_at, earlier, suppresses, pick, pick_from, first_suppressor, keep_or_suppress,
  suppress_from, suppressed_descendant_index,
}

-- A retained row suppresses the candidate.
pub record IsSuppressed (retained : List Retained) (c : DiffRow) : Type 0 where
  pub suppressor : Retained
  pub place : Member suppressor retained
  pub weaker : suppresses suppressor.row c ≡ true
  pub above : Member suppressor.row.path (ancestors c.path)

abbrev IfPicked : List Retained → DiffRow → Option (Bytes × ℕ) → Type 0
IfPicked retained c none = Unit
IfPicked retained c (some b) = IsSuppressed retained c

pick-IfPicked :
    (retained : List Retained) (c : DiffRow) (best : Option (Bytes × ℕ)) (p : Bytes)
    (o : Option Retained)
    → last_where (is_at p) retained ≡ o
    → Member p (ancestors c.path)
    → IfPicked retained c best
    → IfPicked retained c (pick c best p o)
pick-IfPicked retained c best p none found above good = good
pick-IfPicked retained c best p (some e) found above good = elim (Bool-cases (suppresses e.row c)) [
  | inr no_ ↦ rw no_ good
  | inl yes_ ↦
      let at = last_where-Member (is_at p) retained e found in
      let this : IsSuppressed retained c = record {
        suppressor = e;
        place = at.0;
        weaker = yes_;
        above =
            subst (λ (q : Bytes). Member q (ancestors c.path)) (sym (bytes_eq→eq e.row.path p at.1))
              above;
      } in
      rw yes_ (earlier-IfPicked retained c best p e.order this)
]
  where
    earlier-IfPicked :
        (retained : List Retained) (c : DiffRow) (best : Option (Bytes × ℕ)) (p : Bytes) (n : ℕ)
        → IsSuppressed retained c
        → IfPicked retained c (earlier best p n)
    earlier-IfPicked retained c none p n this = this
    earlier-IfPicked retained c (some (q, first)) p n this = elim (Bool-cases (ltb n first)) [
      | inl e ↦ rw e this
      | inr e ↦ rw e this
    ]

pick_from-IfPicked :
    (retained : List Retained) (c : DiffRow) (best : Option (Bytes × ℕ)) (ps : List Bytes)
    → ((p : Bytes) → Member p ps → Member p (ancestors c.path))
    → IfPicked retained c best
    → IfPicked retained c (pick_from retained c best ps)
unfolding pick_from
pick_from-IfPicked retained c best [] above good = good
pick_from-IfPicked retained c best (p ∷ ps) above good =
    pick_from-IfPicked retained c (pick c best p (last_where (is_at p) retained)) ps
      (λ q at_q. above q (inr at_q))
      (pick-IfPicked retained c best p (last_where (is_at p) retained) refl (above p (inl refl))
        good)

-- A candidate is retained, or a retained row suppresses it.
abbrev pub IsSettled : List Retained → DiffRow → Type 0
IsSettled retained c = ((e : Retained) × Member e retained × (e.row ≡ c)) ⊎ IsSuppressed retained c

step-keeps :
    (order : ℕ) (c : DiffRow) (o : Option (Bytes × ℕ)) (retained : List Retained)
    (suppressors : List Bytes) (e : Retained)
    → Member e retained
    → Member e (keep_or_suppress order c o (retained, suppressors)).0
step-keeps order c none retained suppressors e h =
    append-Member e retained ((record { row = c; order = order }) ∷ []) (inl h)
step-keeps order c (some b) retained suppressors e h = h

suppress_from-keeps :
    (order : ℕ) (cs : List DiffRow) (s : List Retained × List Bytes) (e : Retained)
    → Member e s.0
    → Member e (suppress_from order cs s).0
unfolding suppress_from
suppress_from-keeps order [] s e h = h
suppress_from-keeps order (c ∷ cs) (retained, suppressors) e h =
    suppress_from-keeps (suc order) cs
      (keep_or_suppress order c (first_suppressor retained c) (retained, suppressors)) e
      (step-keeps order c (first_suppressor retained c) retained suppressors e h)

step-IsSettled :
    (order : ℕ) (c : DiffRow) (o : Option (Bytes × ℕ)) (retained : List Retained)
    (suppressors : List Bytes)
    → IfPicked retained c o
    → IsSettled (keep_or_suppress order c o (retained, suppressors)).0 c
step-IsSettled order c none retained suppressors good =
    let e : Retained = record { row = c; order = order } in
    inl (e, append-Member e retained (e ∷ []) (inr (inl refl)), refl)
step-IsSettled order c (some b) retained suppressors good = inr good

-- more retained rows settle no fewer candidates
IsSettled-grows :
    (c : DiffRow) (rs ss : List Retained)
    → ((e : Retained) → Member e rs → Member e ss)
    → IsSettled rs c
    → IsSettled ss c
IsSettled-grows c rs ss more (inl (e, place, same)) = inl (e, more e place, same)
IsSettled-grows c rs ss more (inr s) = inr (record {
  suppressor = s.suppressor;
  place = more s.suppressor s.place;
  weaker = s.weaker;
  above = s.above;
})

suppress_from-IsSettled :
    (order : ℕ) (cs : List DiffRow) (s : List Retained × List Bytes) (c : DiffRow)
    → Member c cs
    → IsSettled (suppress_from order cs s).0 c
unfolding suppress_from
suppress_from-IsSettled order [] s c h = elim h [ ]
suppress_from-IsSettled order (d ∷ cs) (retained, suppressors) c (inr there) =
    suppress_from-IsSettled (suc order) cs
      (keep_or_suppress order d (first_suppressor retained d) (retained, suppressors)) c there
suppress_from-IsSettled order (d ∷ cs) (retained, suppressors) c (inl same) =
    let s = keep_or_suppress order d (first_suppressor retained d) (retained, suppressors) in
    let picked = pick_from-IfPicked retained d none (ancestors d.path) (λ p at_p. at_p) tt in
    let settled =
      step-IsSettled order d (first_suppressor retained d) retained suppressors picked in
    subst (IsSettled (suppress_from (suc order) cs s).0) (sym same) (
      IsSettled-grows d s.0 (suppress_from (suc order) cs s).0
        (λ e at_e. suppress_from-keeps (suc order) cs s e at_e) settled)

pub suppressed_descendant_index-IsSettled :
    (surviving : List DiffRow) (c : DiffRow)
    → Member c surviving
    → IsSettled (suppressed_descendant_index surviving).0 c
unfolding suppressed_descendant_index
suppressed_descendant_index-IsSettled surviving c h =
    suppress_from-IsSettled 0 surviving ([], []) c h
