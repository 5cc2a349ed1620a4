-- ===== src/Reporting/Frontier/Suppress.antt =====
-- reporting/frontier.py: a candidate that is retained is at least 0.95 of each retained ancestor.
use watchdirs.Prelude.{
  ℕ, suc, ◌*◌, ◌≡◌, ◌≢◌, ◌≤◌, ◌⊎◌, inl, inr, refl, sym, ap, ◌∙◌, subst, false, Option, none, some,
  List, [], ◌∷◌, ◌++◌, arith, ltb, All, Member, Bool-cases, Option-cases,
}
use watchdirs.Prelude.Bytes.{Bytes, bytes_eq_refl, bytes_eq→eq}
use watchdirs.Prelude.Sorting.{last_where, last_where-none, last_where-Member, All-at}
use watchdirs.Reporting.Rows.{DiffRow, gain}
use watchdirs.Reporting.Ancestors.{ancestors}
use watchdirs.Reporting.Frontier.Scope.{
  Retained, is_at, suppresses, pick, pick_from, first_suppressor, keep_or_suppress, suppress_from,
  suppressed_descendant_index,
}

-- no two rows with one path
abbrev pub HasOnePath : List DiffRow → Type 0
HasOnePath rows = (a b : DiffRow) → Member a rows → Member b rows → a.path ≡ b.path → a ≡ b

-- the growth does not rise
abbrev pub Descending : List DiffRow → Type 0
Descending [] = Unit
Descending (c ∷ cs) = All (λ d. gain d ≤ gain c) cs × Descending cs

Member-last {ℓ} :
    {A : Type ℓ} (a c : A) (xs : List A) → Member a (xs ++ (c ∷ [])) → Member a xs ⊎ (a ≡ c)
Member-last a c [] (inl e) = inr e
Member-last a c [] (inr there) = elim there [ ]
Member-last a c (x ∷ xs) (inl e) = inl (inl e)
Member-last a c (x ∷ xs) (inr there) = elim (Member-last a c xs there) [
  | inl old ↦ inl (inr old)
  | inr new ↦ inr new
]

module _ (retained : List Retained) (c : DiffRow) where
  pick-some :
      (b : Bytes × ℕ) (p : Bytes) (o : Option Retained)
      → (b' : Bytes × ℕ) × (pick c (some b) p o ≡ some b')
  pick-some b p none = (b, refl)
  pick-some (q, first) p (some e) = elim (Bool-cases (suppresses e.row c)) [
    | inl s ↦ elim (Bool-cases (ltb e.order first)) [
      | inl lt ↦ ((p, e.order), rw (s, lt) refl)
      | inr ge ↦ ((q, first), rw (s, ge) refl)
    ]
    | inr s ↦ ((q, first), rw s refl)
  ]

  pick_from-some : (ps : List Bytes) (b : Bytes × ℕ) → pick_from retained c (some b) ps ≢ none
  unfolding pick_from
  pick_from-some [] b h = cc
  pick_from-some (p ∷ ps) b h =
      let (b', e) = pick-some b p (last_where (is_at p) retained) in
      pick_from-some ps b' (sym (ap (λ o. pick_from retained c o ps) e) ∙ h)

  -- where nothing is picked, no retained ancestor suppresses
  pick_from-none :
      (ps : List Bytes) (p : Bytes) (e : Retained)
      → pick_from retained c none ps ≡ none
      → Member p ps
      → last_where (is_at p) retained ≡ some e
      → suppresses e.row c ≡ false
  unfolding pick_from
  pick_from-none [] p e h place found = elim place [ ]
  pick_from-none (q ∷ ps) p e h (inl same) found = elim (Bool-cases (suppresses e.row c)) [
    | inr no_ ↦ no_
    | inl yes_ ↦
        let at_q : last_where (is_at q) retained ≡ some e =
          subst (λ r. last_where (is_at r) retained ≡ some e) same found in
        let picked : pick c none q (last_where (is_at q) retained) ≡ some (q, e.order) =
          rw (at_q, yes_) refl in
        absurd
          (pick_from-some ps (q, e.order) (sym (ap (λ o. pick_from retained c o ps) picked) ∙ h))
  ]
  pick_from-none (q ∷ ps) p e h (inr place) found =
      elim (Option-cases (pick c none q (last_where (is_at q) retained))) [
        | inl nothing_ ↦
            pick_from-none ps p e (sym (ap (λ o. pick_from retained c o ps) nothing_) ∙ h) place
              found
        | inr (b, f) ↦
            absurd (pick_from-some ps b (sym (ap (λ o. pick_from retained c o ps) f) ∙ h))
      ]

-- The retained ones, before the candidates that are left.
pub record AreKept (rows : List DiffRow) (retained : List Retained) (left_ : List DiffRow)
    : Type 0 where
  pub from : (e : Retained) → Member e retained → Member e.row rows
  pub apart :
      (a d : Retained)
      → Member a retained
      → Member d retained
      → Member a.row.path (ancestors d.row.path)
      → 19 * gain a.row ≤ 20 * gain d.row
  pub before : (e : Retained) → Member e retained → All (λ c. gain c ≤ gain e.row) left_

module _ (rows : List DiffRow) (one : HasOnePath rows) where
  at_path :
      (retained : List Retained) (a : Retained)
      → ((e : Retained) → Member e retained → Member e.row rows)
      → Member a retained
      → (e : Retained) × (last_where (is_at a.row.path) retained ≡ some e) × (e.row ≡ a.row)
  at_path retained a from place = elim (Option-cases (last_where (is_at a.row.path) retained)) [
    | inl missing_ ↦
        let no_ =
          All-at (λ e. is_at a.row.path e ≡ false) retained a
            (last_where-none (is_at a.row.path) retained missing_) place in
        absurd (ground (arith, no_, bytes_eq_refl a.row.path))
    | inr (e, found) ↦
        let at = last_where-Member (is_at a.row.path) retained e found in
        (
          e,
          found,
          one e.row a.row (from e at.0) (from a place) (bytes_eq→eq e.row.path a.row.path at.1),
        )
  ]

  -- one more retained candidate, which no retained ancestor suppresses
  module _ (order : ℕ) (c : DiffRow) (cs : List DiffRow) (retained : List Retained)
      (place : Member c rows) (falls : Descending (c ∷ cs))
      (free : first_suppressor retained c ≡ none) (kept : AreKept rows retained (c ∷ cs)) where
    abbrev entry : Retained
    entry = record { row = c; order = order }

    apart_new :
        (a : Retained)
        → Member a retained
        → Member a.row.path (ancestors c.path)
        → 19 * gain a.row ≤ 20 * gain c
    apart_new a at_a above =
        let (e, found, same) = at_path retained a kept.from at_a in
        let spared = pick_from-none retained c (ancestors c.path) a.row.path e free above found in
        let g : gain e.row ≡ gain a.row = ap gain same in ground (arith, spared, g)

    apart_kept :
        (a d : Retained)
        → Member a retained ⊎ (a ≡ entry)
        → Member d retained ⊎ (d ≡ entry)
        → Member a.row.path (ancestors d.row.path)
        → 19 * gain a.row ≤ 20 * gain d.row
    apart_kept a d (inl at_a) (inl at_d) above = kept.apart a d at_a at_d above
    apart_kept a d (inl at_a) (inr new) above =
        let g : gain d.row ≡ gain c = ap (λ e. gain e.row) new in
        let h =
          apart_new a at_a
            (subst (λ (e : Retained). Member a.row.path (ancestors e.row.path)) new above) in
        omega (arith, g, h)
    apart_kept a d (inr new) (inl at_d) above =
        let g : gain a.row ≡ gain c = ap (λ e. gain e.row) new in
        omega (arith, g, (kept.before d at_d).0)
    apart_kept a d (inr new) (inr new') above =
        let g : gain a.row ≡ gain c = ap (λ e. gain e.row) new in
        let g' : gain d.row ≡ gain c = ap (λ e. gain e.row) new' in omega (arith, g, g')

    from_kept : (e : Retained) → Member e retained ⊎ (e ≡ entry) → Member e.row rows
    from_kept e (inl at_e) = kept.from e at_e
    from_kept e (inr new) = subst (λ (r : Retained). Member r.row rows) (sym new) place

    before_kept :
        (e : Retained) → Member e retained ⊎ (e ≡ entry) → All (λ d. gain d ≤ gain e.row) cs
    before_kept e (inl at_e) = (kept.before e at_e).1
    before_kept e (inr new) =
        subst (λ (r : Retained). All (λ d. gain d ≤ gain r.row) cs) (sym new) falls.0

    keep-AreKept : AreKept rows (retained ++ (entry ∷ [])) cs
    keep-AreKept = record {
      from = λ e at_e. from_kept e (Member-last e entry retained at_e);
      apart = λ a d at_a at_d.
          apart_kept a d (Member-last a entry retained at_a) (Member-last d entry retained at_d);
      before = λ e at_e. before_kept e (Member-last e entry retained at_e);
    }

  step-AreKept :
      (order : ℕ) (c : DiffRow) (cs : List DiffRow) (retained : List Retained)
      (suppressors : List Bytes) (o : Option (Bytes × ℕ))
      → Member c rows
      → Descending (c ∷ cs)
      → first_suppressor retained c ≡ o
      → AreKept rows retained (c ∷ cs)
      → AreKept rows (keep_or_suppress order c o (retained, suppressors)).0 cs
  step-AreKept order c cs retained suppressors none place falls free kept =
      keep-AreKept order c cs retained place falls free kept
  step-AreKept order c cs retained suppressors (some b) place falls free kept = record {
    from = kept.from;
    apart = kept.apart;
    before = λ e at_e. (kept.before e at_e).1;
  }

  suppress_from-AreKept :
      (order : ℕ) (cs : List DiffRow) (s : List Retained × List Bytes)
      → ((c : DiffRow) → Member c cs → Member c rows)
      → Descending cs
      → AreKept rows s.0 cs
      → AreKept rows (suppress_from order cs s).0 []
  unfolding suppress_from
  suppress_from-AreKept order [] s inside falls kept = kept
  suppress_from-AreKept order (c ∷ cs) (retained, suppressors) inside falls kept =
      suppress_from-AreKept (suc order) cs
        (keep_or_suppress order c (first_suppressor retained c) (retained, suppressors))
        (λ d at_d. inside d (inr at_d)) falls.1
        (step-AreKept order c cs retained suppressors (first_suppressor retained c)
          (inside c (inl refl)) falls refl kept)

  -- of the candidates of a scope
  pub suppressed_descendant_index-AreKept :
      (surviving : List DiffRow)
      → ((c : DiffRow) → Member c surviving → Member c rows)
      → Descending surviving
      → AreKept rows (suppressed_descendant_index surviving).0 []
  unfolding suppressed_descendant_index
  suppressed_descendant_index-AreKept surviving inside falls =
      suppress_from-AreKept 0 surviving ([], []) inside falls
        (record {
          from = λ e place. elim place [ ];
          apart = λ a d place. elim place [ ];
          before = λ e place. elim place [ ];
        })
