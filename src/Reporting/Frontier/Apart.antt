-- ===== src/Reporting/Frontier/Apart.antt =====
-- reporting/frontier.py: no path of the frontier is an ancestor of another one.
use text.Mathlib.TextEquality.{eq_iff}
use watchdirs.Prelude.{
  ◌≡◌, ◌≤◌, inl, inr, refl, sym, ap, ◌∙◌, subst, Bool, true, false, not, some, List, [], ◌∷◌, arith,
  All-map, All-filter, Member, Bool-cases, Option-cases, filter, sorted, insert_sorted,
  All-insert_sorted,
}
use watchdirs.Prelude.Bytes.{Bytes, bytes_eq_refl, bytes_eq→eq}
use watchdirs.Prelude.Sorting.{last_where-none, last_where-Member, All-at, sorted-Member}
use watchdirs.Prelude.Members.{Member-filter, Member-map, Member-append}
use watchdirs.Reporting.Rows.{DiffRow, gain, FrontierRow}
use watchdirs.Reporting.Ancestors.{ancestors}
use watchdirs.Reporting.Frontier.Scope.{
  Retained, is_at, has_path, candidate_at, dominates, is_dominated, dominated_ancestor_index,
  is_retained, suppressed_descendant_index,
}
use watchdirs.Reporting.Frontier.Dominated.{note_all_notes}
use watchdirs.Reporting.Frontier.Suppress.{
  HasOnePath, Descending, suppressed_descendant_index-AreKept,
}
use watchdirs.Reporting.Frontier.{
  is_candidate, candidate_lt, scope_of, ScopeKey, in_scope, frontier_row, prune_scope, prune_scopes,
  keys_from, prune_growth_frontier, entry_lt,
}

pub retained_at :
    (p : Bytes) (rs : List Retained)
    → is_retained rs p ≡ true
    → (e : Retained) × Member e rs × (e.row.path ≡ p)
retained_at p [] h = absurd (ground arith)
retained_at p (r ∷ rs) h = elim (Bool-cases (is_at p r)) [
  | inl e ↦ (r, inl refl, bytes_eq→eq r.row.path p e)
  | inr e ↦ let (x, place, same) = retained_at p rs (ground arith) in (x, inr place, same)
]

pub Descending-filter :
    (p : DiffRow → Bool) (cs : List DiffRow) → Descending cs → Descending (filter p cs)
Descending-filter p [] h = h
Descending-filter p (c ∷ cs) h = elim (Bool-cases (p c)) [
  | inl e ↦ rw e (All-filter (λ d. gain d ≤ gain c) p cs h.0, Descending-filter p cs h.1)
  | inr e ↦ rw e (Descending-filter p cs h.1)
]

-- In one scope: `rows` are its candidates.
module _ (rows : List DiffRow) (one : HasOnePath rows) (falls : Descending rows) where
  abbrev alive : DiffRow → Bool
  alive c = not (is_dominated (dominated_ancestor_index rows) c.path)

  pub candidate_found : (a : DiffRow) → Member a rows → candidate_at rows a.path ≡ some a
  candidate_found a place = elim (Option-cases (candidate_at rows a.path)) [
    | inl missing_ ↦
        let no_ =
          All-at (λ c. has_path a.path c ≡ false) rows a
            (last_where-none (has_path a.path) rows missing_) place in
        absurd (ground (arith, no_, bytes_eq_refl a.path))
    | inr (b, found) ↦
        let at = last_where-Member (has_path a.path) rows b found in
        let same : b ≡ a = one b a at.0 place (bytes_eq→eq b.path a.path at.1) in
        found ∙ ap some same
  ]

  -- an ancestor that is alive is not dominated by any candidate below it
  alive-dominates :
      (a d : DiffRow)
      → Member a rows
      → Member d rows
      → alive a ≡ true
      → Member a.path (ancestors d.path)
      → dominates d a ≡ false
  unfolding dominated_ancestor_index
  alive-dominates a d at_a at_d lives above = elim (Bool-cases (dominates d a)) [
    | inr no_ ↦ no_
    | inl yes_ ↦
        let noted =
          note_all_notes a.path rows a (candidate_found a at_a) rows [] d at_d yes_ above in
        absurd (ground (arith, noted))
  ]

  -- a row of the scope's frontier is a retained candidate
  record IsShown (x : FrontierRow) : Type 0 where
    place : Member x.row rows
    lives : alive x.row ≡ true
    entry : Retained
    kept : Member entry (suppressed_descendant_index (filter alive rows)).0
    same : entry.row.path ≡ x.row.path

  prune_scope-IsShown : (x : FrontierRow) → Member x (prune_scope rows) → IsShown x
  unfolding prune_scope
  prune_scope-IsShown x h =
      let index = suppressed_descendant_index (filter alive rows) in
      let best = dominated_ancestor_index rows in
      let (c, in_filter, e) =
        Member-map (frontier_row best index.1) x
          (filter (λ (c : DiffRow). is_retained index.0 c.path) (filter alive rows)) h in
      let shown =
        Member-filter (λ (c : DiffRow). is_retained index.0 c.path) c (filter alive rows)
          in_filter in
      let living = Member-filter alive c rows shown.0 in
      let (r, kept, same) = retained_at c.path index.0 shown.1 in
      let row_ : x.row ≡ c = ap (λ (y : FrontierRow). y.row) e in
      record {
        place = subst (λ (z : DiffRow). Member z rows) (sym row_) living.0;
        lives = subst (λ (z : DiffRow). alive z ≡ true) (sym row_) living.1;
        entry = r;
        kept = kept;
        same = same ∙ ap (λ (z : DiffRow). z.path) (sym row_);
      }

  scope_apart :
      (x y : FrontierRow) → IsShown x → IsShown y → Member x.row.path (ancestors y.row.path) → ⊥
  scope_apart x y sx sy above =
      let inside : (c : DiffRow) → Member c (filter alive rows) → Member c rows =
        λ c place. (Member-filter alive c rows place).0 in
      let kept =
        suppressed_descendant_index-AreKept rows one (filter alive rows) inside
          (Descending-filter alive rows falls) in
      let ex : sx.entry.row ≡ x.row =
        one sx.entry.row x.row (kept.from sx.entry sx.kept) sx.place sx.same in
      let ey : sy.entry.row ≡ y.row =
        one sy.entry.row y.row (kept.from sy.entry sy.kept) sy.place sy.same in
      let above' : Member sx.entry.row.path (ancestors sy.entry.row.path) =
        subst (λ (p : Bytes). Member p (ancestors sy.entry.row.path)) (sym sx.same)
          (subst (λ (p : Bytes). Member x.row.path (ancestors p)) (sym sy.same) above) in
      let close = kept.apart sx.entry sy.entry sx.kept sy.kept above' in
      let far = alive-dominates x.row y.row sx.place sy.place sx.lives above in
      let gx : gain sx.entry.row ≡ gain x.row = ap gain ex in
      let gy : gain sy.entry.row ≡ gain y.row = ap gain ey in ground (arith, close, far, gx, gy)

candidate_lt-gain : (a b : DiffRow) → candidate_lt b a ≡ false → gain b ≤ gain a
candidate_lt-gain a b h = ground arith

candidate_lt-gain-le : (a b : DiffRow) → candidate_lt a b ≡ true → gain b ≤ gain a
candidate_lt-gain-le a b h = ground arith

insert_sorted-Descending :
    (a : DiffRow) (cs : List DiffRow) → Descending cs → Descending (insert_sorted candidate_lt a cs)
insert_sorted-Descending a [] h = (tt, tt)
insert_sorted-Descending a (c ∷ cs) h = elim (Bool-cases (candidate_lt c a)) [
  | inl e ↦ rw e (
    All-insert_sorted candidate_lt (λ d. gain d ≤ gain c) a cs (candidate_lt-gain-le c a e) h.0,
    insert_sorted-Descending a cs h.1,
  )
  | inr e ↦
      let le : gain c ≤ gain a = candidate_lt-gain a c e in
      rw e ((le, All-map (λ d f. omega (arith, f, le)) cs h.0), h)
]

pub sorted-Descending : (cs : List DiffRow) → Descending (sorted candidate_lt cs)
sorted-Descending [] = tt
sorted-Descending (c ∷ cs) =
    insert_sorted-Descending c (sorted candidate_lt cs) (sorted-Descending cs)

pub scope_of_key : (k : ScopeKey) (row : DiffRow) → in_scope k row ≡ true → k ≡ scope_of row
unfolding in_scope
scope_of_key k row h = ground (arith, (eq_iff k.root_path row.root_path).0, h)

scope_found :
    (ks : List ScopeKey) (cs : List DiffRow) (x : FrontierRow)
    → Member x (prune_scopes ks cs)
    → (k : ScopeKey) × Member x (prune_scope (filter (in_scope k) cs))
unfolding prune_scopes
scope_found [] cs x h = elim h [ ]
scope_found (k ∷ ks) cs x h =
    elim (Member-append x (prune_scope (filter (in_scope k) cs)) (prune_scopes ks cs) h) [
      | inl here ↦ (k, here)
      | inr there ↦ scope_found ks cs x there
    ]

-- rows of one scope and one path are one row
abbrev pub HasOnePathPerScope : List DiffRow → Type 0
HasOnePathPerScope rows =
    (a b : DiffRow)
    → Member a rows
    → Member b rows
    → scope_of a ≡ scope_of b
    → a.path ≡ b.path
    → a ≡ b

-- the candidates of a scope
module _ (rows : List DiffRow) (one : HasOnePathPerScope rows) where
  abbrev candidates : List DiffRow
  candidates = sorted candidate_lt (filter is_candidate rows)

  candidate-Member : (c : DiffRow) → Member c candidates → Member c rows
  candidate-Member c h =
      (Member-filter is_candidate c rows
        (sorted-Member candidate_lt c (filter is_candidate rows) h)).0

  one_in_scope : (k : ScopeKey) → HasOnePath (filter (in_scope k) candidates)
  one_in_scope k a b at_a at_b =
      let ma = Member-filter (in_scope k) a candidates at_a in
      let mb = Member-filter (in_scope k) b candidates at_b in
      one a b (candidate-Member a ma.0) (candidate-Member b mb.0)
        (sym (scope_of_key k a ma.1) ∙ scope_of_key k b mb.1)

  scope_falls : (k : ScopeKey) → Descending (filter (in_scope k) candidates)
  scope_falls k =
      Descending-filter (in_scope k) candidates (sorted-Descending (filter is_candidate rows))

  -- a frontier row belongs to the frontier of its own scope
  own_scope :
      (x : FrontierRow)
      → Member x (prune_growth_frontier rows)
      → Member x (prune_scope (filter (in_scope (scope_of x.row)) candidates))
  unfolding prune_growth_frontier
  own_scope x h =
      let (k, here) =
        scope_found (keys_from [] candidates) candidates x
          (sorted-Member entry_lt x (prune_scopes (keys_from [] candidates) candidates) h) in
      let shown =
        prune_scope-IsShown (filter (in_scope k) candidates) (one_in_scope k) (scope_falls k) x
          here in
      let key = scope_of_key k x.row (Member-filter (in_scope k) x.row candidates shown.place).1 in
      subst (λ (l : ScopeKey). Member x (prune_scope (filter (in_scope l) candidates))) key here

  -- The frontier never reports a path together with one of its ancestors: of two rows of one root
  -- and one pair of snapshots, neither path is an ancestor of the other, if the given rows have
  -- each path once.
  pub prune_growth_frontier_apart :
      (x y : FrontierRow)
      → Member x (prune_growth_frontier rows)
      → Member y (prune_growth_frontier rows)
      → scope_of x.row ≡ scope_of y.row
      → ¬ Member x.row.path (ancestors y.row.path)
  prune_growth_frontier_apart x y at_x at_y same above =
      let k = scope_of y.row in
      let scope = filter (in_scope k) candidates in
      let here : Member x (prune_scope scope) =
        subst (λ (l : ScopeKey). Member x (prune_scope (filter (in_scope l) candidates))) same
          (own_scope x at_x) in
      let show = prune_scope-IsShown scope (one_in_scope k) (scope_falls k) in
      scope_apart scope (one_in_scope k) (scope_falls k) x y (show x here)
        (show y (own_scope y at_y)) above
