-- ===== src/Reporting/Frontier/Noted.antt =====
-- reporting/frontier.py: a path counts as dominated only if a descendant dominates it.
use watchdirs.Prelude.{
  ◌≡◌, ◌⊎◌, inl, inr, refl, subst, true, Option, none, some, List, [], ◌∷◌, ◌++◌, arith, Member,
  Bool-cases,
}
use watchdirs.Prelude.Bytes.{Bytes, bytes_eq, bytes_eq→eq}
use watchdirs.Reporting.Rows.{DiffRow}
use watchdirs.Reporting.Ancestors.{ancestors}
use watchdirs.Reporting.Frontier.Scope.{
  candidate_at, dominates, is_dominated, set_default, note_found, note_ancestors, note_all,
  dominated_ancestor_index,
}

module _ (rows : List DiffRow) where
  -- a descendant of the scope dominates the candidate at the path
  pub record IsNoted (p : Bytes) : Type 0 where
    pub descendant : DiffRow
    pub ancestor : DiffRow
    pub place : Member descendant rows
    pub at : candidate_at rows p ≡ some ancestor
    pub stronger : dominates descendant ancestor ≡ true
    pub above : Member p (ancestors descendant.path)

  abbrev AreNoted : List (Bytes × DiffRow) → Type 0
  AreNoted best = (p : Bytes) → is_dominated best p ≡ true → IsNoted p

  dominated_cases :
      (p q : Bytes) (d : DiffRow) (best : List (Bytes × DiffRow))
      → is_dominated (best ++ ((q, d) ∷ [])) p ≡ true
      → (is_dominated best p ≡ true) ⊎ (q ≡ p)
  dominated_cases p q d [] h = elim (Bool-cases (bytes_eq q p)) [
    | inl e ↦ inr (bytes_eq→eq q p e)
    | inr e ↦ absurd (ground (arith, e))
  ]
  dominated_cases p q d ((r, e) ∷ best) h = elim (Bool-cases (bytes_eq r p)) [
    | inl same ↦ inl (rw same refl)
    | inr other ↦ elim (dominated_cases p q d best (rw other at h)) [
      | inl old ↦ inl (rw other old)
      | inr new ↦ inr new
    ]
  ]

  set_default-AreNoted :
      (q : Bytes) (d : DiffRow) (best : List (Bytes × DiffRow))
      → AreNoted best
      → IsNoted q
      → AreNoted (set_default best q d)
  set_default-AreNoted q d best noted new p h = elim (Bool-cases (is_dominated best q)) [
    | inl e ↦ noted p (rw e at h)
    | inr e ↦ elim (dominated_cases p q d best (rw e at h)) [
      | inl old ↦ noted p old
      | inr same ↦ subst IsNoted same new
    ]
  ]

  note_found-AreNoted :
      (d : DiffRow) (q : Bytes) (o : Option DiffRow) (best : List (Bytes × DiffRow))
      → candidate_at rows q ≡ o
      → Member d rows
      → Member q (ancestors d.path)
      → AreNoted best
      → AreNoted (note_found d q o best)
  note_found-AreNoted d q none best at place above noted = noted
  note_found-AreNoted d q (some a) best at place above noted = elim (Bool-cases (dominates d a)) [
    | inl e ↦ rw e (
        set_default-AreNoted q d best noted (record {
          descendant = d;
          ancestor = a;
          place = place;
          at = at;
          stronger = e;
          above = above;
        }))
    | inr e ↦ rw e noted
  ]

  note_ancestors-AreNoted :
      (d : DiffRow) (ps : List Bytes) (best : List (Bytes × DiffRow))
      → Member d rows
      → ((p : Bytes) → Member p ps → Member p (ancestors d.path))
      → AreNoted best
      → AreNoted (note_ancestors rows d ps best)
  unfolding note_ancestors
  note_ancestors-AreNoted d [] best place above noted = noted
  note_ancestors-AreNoted d (q ∷ ps) best place above noted =
      note_ancestors-AreNoted d ps (note_found d q (candidate_at rows q) best) place
        (λ p at_p. above p (inr at_p))
        (note_found-AreNoted d q (candidate_at rows q) best refl place (above q (inl refl)) noted)

  note_all-AreNoted :
      (ds : List DiffRow) (best : List (Bytes × DiffRow))
      → ((d : DiffRow) → Member d ds → Member d rows)
      → AreNoted best
      → AreNoted (note_all rows ds best)
  unfolding note_all
  note_all-AreNoted [] best inside noted = noted
  note_all-AreNoted (d ∷ ds) best inside noted =
      note_all-AreNoted ds (note_ancestors rows d (ancestors d.path) best)
        (λ e at_e. inside e (inr at_e))
        (note_ancestors-AreNoted d (ancestors d.path) best (inside d (inl refl)) (λ p at_p. at_p)
          noted)

  pub dominated_ancestor_index-AreNoted : AreNoted (dominated_ancestor_index rows)
  unfolding dominated_ancestor_index
  dominated_ancestor_index-AreNoted =
      note_all-AreNoted rows [] (λ d place. place) (λ p h. absurd (ground (arith, h)))
