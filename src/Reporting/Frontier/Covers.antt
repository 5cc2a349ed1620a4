-- ===== src/Reporting/Frontier/Covers.antt =====
-- reporting/frontier.py: every growing path is reported, or a reported path or a descendant stands
-- for it.
use watchdirs.Prelude.{
  ◌≡◌, ◌⊎◌, inl, inr, refl, sym, ap, ◌∙◌, subst, Bool, true, not, some, List, [], ◌∷◌, arith,
  Member, Bool-cases, any, filter, sorted,
}
use text.Mathlib.TextPositions.{eq_refl}
use watchdirs.Prelude.Bytes.{bytes_eq_refl}
use watchdirs.Prelude.Members.{
  Member-filter, filter-Member, map-Member, append-Member, Member-sorted,
}
use watchdirs.Prelude.Sorting.{sorted-Member}
use watchdirs.Reporting.Rows.{DiffRow, FrontierRow}
use watchdirs.Reporting.Ancestors.{ancestors}
use watchdirs.Reporting.Frontier.Scope.{
  Retained, is_at, dominates, is_dominated, dominated_ancestor_index, is_retained, suppresses,
  suppressed_descendant_index,
}
use watchdirs.Reporting.Frontier.Noted.{dominated_ancestor_index-AreNoted}
use watchdirs.Reporting.Frontier.Settled.{suppressed_descendant_index-IsSettled}
use watchdirs.Reporting.Frontier.Suppress.{
  HasOnePath, Descending, suppressed_descendant_index-AreKept,
}
use watchdirs.Reporting.Frontier.Apart.{
  HasOnePathPerScope, Descending-filter, sorted-Descending, candidate_found, scope_of_key,
}
use watchdirs.Reporting.Frontier.{
  is_candidate, candidate_lt, entry_lt, scope_of, ScopeKey, in_scope, frontier_row, prune_scope,
  prune_scopes, keys_from, is_key_of, prune_growth_frontier,
}

-- What stands for a candidate among rows and the frontier rows that are shown of them.
pub data Covered (rows : List DiffRow) (shown : List FrontierRow) (c : DiffRow) : Type 0 where
  reported : (x : FrontierRow) → Member x shown → x.row ≡ c → Covered rows shown c
  by_descendant :
      (d : DiffRow)
      → Member d rows
      → scope_of d ≡ scope_of c
      → Member c.path (ancestors d.path)
      → dominates d c ≡ true
      → Covered rows shown c
  by_ancestor :
      (x : FrontierRow)
      → Member x shown
      → scope_of x.row ≡ scope_of c
      → Member x.row.path (ancestors c.path)
      → suppresses x.row c ≡ true
      → Covered rows shown c

some_injective : (a b : DiffRow) → some a ≡ some b → a ≡ b
some_injective a b h = cc

is_retained_refl :
    (e : Retained) (rs : List Retained) → Member e rs → is_retained rs e.row.path ≡ true
is_retained_refl e [] h = elim h [ ]
is_retained_refl e (r ∷ rs) (inl same) =
    let t : is_at e.row.path r ≡ true =
      subst (λ (z : Retained). is_at e.row.path z ≡ true) same (bytes_eq_refl e.row.path) in
    rw t refl
is_retained_refl e (r ∷ rs) (inr there) = ground (arith, is_retained_refl e rs there)

module _ (rows : List DiffRow) (one : HasOnePath rows) (falls : Descending rows)
    (together : (a b : DiffRow) → Member a rows → Member b rows → scope_of a ≡ scope_of b) where
  abbrev alive : DiffRow → Bool
  alive c = not (is_dominated (dominated_ancestor_index rows) c.path)

  -- a retained row is shown
  retained-shown :
      (e : Retained)
      → Member e (suppressed_descendant_index (filter alive rows)).0
      → (x : FrontierRow) × Member x (prune_scope rows) × (x.row ≡ e.row) × Member e.row rows
  unfolding prune_scope
  retained-shown e h =
      let index = suppressed_descendant_index (filter alive rows) in
      let best = dominated_ancestor_index rows in
      let one_alive : HasOnePath (filter alive rows) = λ a b at_a at_b p.
        one a b (Member-filter alive a rows at_a).0 (Member-filter alive b rows at_b).0 p in
      let kept =
        suppressed_descendant_index-AreKept (filter alive rows) one_alive (filter alive rows)
          (λ c at_c. at_c) (Descending-filter alive rows falls) in
      (
        frontier_row best index.1 e.row,
        map-Member (frontier_row best index.1) e.row
            (filter (λ (c : DiffRow). is_retained index.0 c.path) (filter alive rows))
            (filter-Member (λ (c : DiffRow). is_retained index.0 c.path) e.row (filter alive rows)
              (kept.from e h) (is_retained_refl e index.0 h)),
        refl,
        (Member-filter alive e.row rows (kept.from e h)).0,
      )

  scope-Covered : (c : DiffRow) → Member c rows → Covered rows (prune_scope rows) c
  scope-Covered c h = elim (Bool-cases (is_dominated (dominated_ancestor_index rows) c.path)) [
    | inl gone ↦
        let n = dominated_ancestor_index-AreNoted rows c.path gone in
        let same : n.ancestor ≡ c =
          some_injective n.ancestor c (sym n.at ∙ candidate_found rows one falls c h) in
        by_descendant n.descendant n.place (together n.descendant c n.place h) n.above
          (subst (λ (z : DiffRow). dominates n.descendant z ≡ true) same n.stronger)
    | inr stays ↦
        let lives : alive c ≡ true = ground (arith, stays) in
        elim (suppressed_descendant_index-IsSettled (filter alive rows) c
          (filter-Member alive c rows h lives)) [
            | inl (e, place, same) ↦
                let (x, shown, row_, _) = retained-shown e place in reported x shown (row_ ∙ same)
            | inr s ↦
                let (x, shown, row_, inside) = retained-shown s.suppressor s.place in
                by_ancestor x shown (ap scope_of row_ ∙ together s.suppressor.row c inside h)
                  (subst (λ (z : DiffRow). Member z.path (ancestors c.path)) (sym row_) s.above)
                  (subst (λ (z : DiffRow). suppresses z c ≡ true) (sym row_) s.weaker)
          ]
  ]

in_scope_refl : (row : DiffRow) → in_scope (scope_of row) row ≡ true
unfolding in_scope
in_scope_refl row = ground (arith, eq_refl row.root_path)

key_found :
    (seen : List ScopeKey) (c : DiffRow)
    → any (is_key_of c) seen ≡ true
    → (k : ScopeKey) × Member k seen × (in_scope k c ≡ true)
key_found [] c h = absurd (ground arith)
key_found (k ∷ seen) c h = elim (Bool-cases (in_scope k c)) [
  | inl e ↦ (k, inl refl, e)
  | inr e ↦ let (l, place, f) = key_found seen c (rw e at h) in (l, inr place, f)
]

keys_from-covers :
    (seen : List ScopeKey) (cs : List DiffRow) (c : DiffRow)
    → Member c cs
    → (k : ScopeKey) × (Member k seen ⊎ Member k (keys_from seen cs)) × (in_scope k c ≡ true)
unfolding keys_from
keys_from-covers seen [] c h = elim h [ ]
keys_from-covers seen (d ∷ cs) c (inl same) = elim (Bool-cases (any (is_key_of d) seen)) [
  | inl e ↦
      let (k, place, f) = key_found seen d e in
      (k, inl place, subst (λ (z : DiffRow). in_scope k z ≡ true) (sym same) f)
  | inr e ↦ rw e (
    scope_of d,
    inr (inl refl),
    subst (λ (z : DiffRow). in_scope (scope_of d) z ≡ true) (sym same) (in_scope_refl d),
  )
]
keys_from-covers seen (d ∷ cs) c (inr there) = elim (Bool-cases (any (is_key_of d) seen)) [
  | inl e ↦ rw e (keys_from-covers seen cs c there)
  | inr e ↦ rw e (shift (keys_from-covers (scope_of d ∷ seen) cs c there))
]
  where
    shift :
        ((k : ScopeKey) × (Member k (scope_of d ∷ seen)
            ⊎ Member k (keys_from (scope_of d ∷ seen) cs))
          × (in_scope k c ≡ true))
        → (k : ScopeKey) × (Member k seen
            ⊎ Member k (scope_of d ∷ keys_from (scope_of d ∷ seen) cs))
          × (in_scope k c ≡ true)
    shift (k, inl (inl same), f) = (k, inr (inl same), f)
    shift (k, inl (inr place), f) = (k, inl place, f)
    shift (k, inr place, f) = (k, inr (inr place), f)

prune_scopes-Member :
    (ks : List ScopeKey) (cs : List DiffRow) (k : ScopeKey) (x : FrontierRow)
    → Member k ks
    → Member x (prune_scope (filter (in_scope k) cs))
    → Member x (prune_scopes ks cs)
unfolding prune_scopes
prune_scopes-Member [] cs k x h m = elim h [ ]
prune_scopes-Member (l ∷ ks) cs k x (inl same) m =
    append-Member x (prune_scope (filter (in_scope l) cs)) (prune_scopes ks cs)
      (inl (subst (λ (z : ScopeKey). Member x (prune_scope (filter (in_scope z) cs))) same m))
prune_scopes-Member (l ∷ ks) cs k x (inr there) m =
    append-Member x (prune_scope (filter (in_scope l) cs)) (prune_scopes ks cs)
      (inr (prune_scopes-Member ks cs k x there m))

not_seen : (k : ScopeKey) (ks : List ScopeKey) → Member k [] ⊎ Member k ks → Member k ks
not_seen k ks (inl none_) = elim none_ [ ]
not_seen k ks (inr place) = place

-- more rows and more shown rows cover no less
Covered-grows :
    (rows rows' : List DiffRow) (shown shown' : List FrontierRow) (c : DiffRow)
    → ((d : DiffRow) → Member d rows → Member d rows')
    → ((x : FrontierRow) → Member x shown → Member x shown')
    → Covered rows shown c
    → Covered rows' shown' c
Covered-grows rows rows' shown shown' c f g (reported x place same) = reported x (g x place) same
Covered-grows rows rows' shown shown' c f g (by_descendant d place scope above h) =
    by_descendant d (f d place) scope above h
Covered-grows rows rows' shown shown' c f g (by_ancestor x place scope above h) =
    by_ancestor x (g x place) scope above h

-- Every row that was created or has grown, and whose disk use rose, is accounted for. It is in the
-- frontier; or a row below it in the same scope grew at least 0.95 times as much; or a frontier row
-- above it in the same scope grew so much that the growth of the row is less than 0.95 of it.
-- The given rows have each path once per scope.
pub prune_growth_frontier-Covered :
    (rows : List DiffRow)
    → HasOnePathPerScope rows
    → (c : DiffRow) → Member c rows
    → is_candidate c ≡ true
    → Covered rows (prune_growth_frontier rows) c
unfolding prune_growth_frontier
prune_growth_frontier-Covered rows one c h grew =
    let growing = filter is_candidate rows in
    let candidates = sorted candidate_lt growing in
    let at_c = Member-sorted candidate_lt c growing (filter-Member is_candidate c rows h grew) in
    let keys = keys_from [] candidates in
    let (k, at_k, f) = keys_from-covers [] candidates c at_c in
    let scope = filter (in_scope k) candidates in
    let inside : (d : DiffRow) → Member d scope → Member d rows × (in_scope k d ≡ true) = λ d at_d.
      let m = Member-filter (in_scope k) d candidates at_d in
      ((Member-filter is_candidate d rows (sorted-Member candidate_lt d growing m.0)).0, m.1) in
    let together : (a b : DiffRow) → Member a scope → Member b scope → scope_of a ≡ scope_of b =
      λ a b at_a at_b.
        sym (scope_of_key k a (inside a at_a).1) ∙ scope_of_key k b (inside b at_b).1 in
    let one_here : HasOnePath scope =
      λ a b at_a at_b p. one a b (inside a at_a).0 (inside b at_b).0 (together a b at_a at_b) p in
    let covered =
      scope-Covered scope one_here
        (Descending-filter (in_scope k) candidates (sorted-Descending growing)) together c
        (filter-Member (in_scope k) c candidates at_c f) in
    Covered-grows scope rows (prune_scope scope) (sorted entry_lt (prune_scopes keys candidates)) c
      (λ d at_d. (inside d at_d).0)
      (λ x at_x.
        Member-sorted entry_lt x (prune_scopes keys candidates)
          (prune_scopes-Member keys candidates k x (not_seen k keys at_k) at_x))
      covered
