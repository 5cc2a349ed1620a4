-- ===== src/Reporting/Frontier/Dominated.antt =====
-- reporting/frontier.py: every dominated ancestor is noted.
use watchdirs.Prelude.{
  ◌≡◌, inl, inr, refl, subst, true, Option, none, some, List, [], ◌∷◌, ◌++◌, arith, Member,
}
use watchdirs.Prelude.Bytes.{Bytes, bytes_eq_refl}
use watchdirs.Reporting.Rows.{DiffRow}
use watchdirs.Reporting.Ancestors.{ancestors}
use watchdirs.Reporting.Frontier.Scope.{
  candidate_at, dominates, is_dominated, set_default, note_found, note_ancestors, note_all,
}

module _ (p : Bytes) where
  dominated-append :
      (best more : List (Bytes × DiffRow))
      → is_dominated best p ≡ true
      → is_dominated (best ++ more) p ≡ true
  dominated-append [] more h = absurd (ground arith)
  dominated-append ((q, d) ∷ best) more h = ground (arith, dominated-append best more)

  dominated_last :
      (best : List (Bytes × DiffRow)) (d : DiffRow) → is_dominated (best ++ ((p, d) ∷ [])) p ≡ true
  dominated_last [] d = rw (bytes_eq_refl p) refl
  dominated_last ((q, e) ∷ best) d = ground (arith, dominated_last best d)

  set_default_keeps :
      (best : List (Bytes × DiffRow)) (q : Bytes) (d : DiffRow)
      → is_dominated best p ≡ true
      → is_dominated (set_default best q d) p ≡ true
  set_default_keeps best q d h = ground (arith, dominated-append best ((q, d) ∷ []))

  set_default_sets :
      (best : List (Bytes × DiffRow)) (d : DiffRow) → is_dominated (set_default best p d) p ≡ true
  set_default_sets best d = ground (arith, dominated_last best d)

  note_found_keeps :
      (d : DiffRow) (q : Bytes) (o : Option DiffRow) (best : List (Bytes × DiffRow))
      → is_dominated best p ≡ true
      → is_dominated (note_found d q o best) p ≡ true
  note_found_keeps d q none best h = h
  note_found_keeps d q (some a) best h = ground (arith, set_default_keeps best q d h)

  module _ (candidates : List DiffRow) where
    note_ancestors_keeps :
        (d : DiffRow) (ps : List Bytes) (best : List (Bytes × DiffRow))
        → is_dominated best p ≡ true
        → is_dominated (note_ancestors candidates d ps best) p ≡ true
    unfolding note_ancestors
    note_ancestors_keeps d [] best h = h
    note_ancestors_keeps d (q ∷ ps) best h =
        note_ancestors_keeps d ps (note_found d q (candidate_at candidates q) best)
          (note_found_keeps d q (candidate_at candidates q) best h)

    note_all_keeps :
        (ds : List DiffRow) (best : List (Bytes × DiffRow))
        → is_dominated best p ≡ true
        → is_dominated (note_all candidates ds best) p ≡ true
    unfolding note_all
    note_all_keeps [] best h = h
    note_all_keeps (d ∷ ds) best h =
        note_all_keeps ds (note_ancestors candidates d (ancestors d.path) best)
          (note_ancestors_keeps d (ancestors d.path) best h)

    -- a dominated ancestor is noted
    module _ (a : DiffRow) (at : candidate_at candidates p ≡ some a) where
      note_ancestors_notes :
          (d : DiffRow) (ps : List Bytes) (best : List (Bytes × DiffRow))
          → dominates d a ≡ true
          → Member p ps
          → is_dominated (note_ancestors candidates d ps best) p ≡ true
      unfolding note_ancestors
      note_ancestors_notes d [] best h place = elim place [ ]
      note_ancestors_notes d (q ∷ ps) best h (inl same) =
          let at_q : candidate_at candidates q ≡ some a =
            subst (λ r. candidate_at candidates r ≡ some a) same at in
          let noted : is_dominated (note_found d q (candidate_at candidates q) best) p ≡ true =
            rw (at_q, h)
              (subst (λ r. is_dominated (set_default best r d) p ≡ true) same
                (set_default_sets best d)) in
          note_ancestors_keeps d ps (note_found d q (candidate_at candidates q) best) noted
      note_ancestors_notes d (q ∷ ps) best h (inr place) =
          note_ancestors_notes d ps (note_found d q (candidate_at candidates q) best) h place

      pub note_all_notes :
          (ds : List DiffRow) (best : List (Bytes × DiffRow)) (d : DiffRow)
          → Member d ds
          → dominates d a ≡ true
          → Member p (ancestors d.path)
          → is_dominated (note_all candidates ds best) p ≡ true
      unfolding note_all
      note_all_notes [] best d place h above = elim place [ ]
      note_all_notes (e ∷ ds) best d (inl same) h above =
          note_all_keeps ds (note_ancestors candidates e (ancestors e.path) best) (
            note_ancestors_notes e (ancestors e.path) best
              (subst (λ r. dominates r a ≡ true) same h)
              (subst (λ (r : DiffRow). Member p (ancestors r.path)) same above))
      note_all_notes (e ∷ ds) best d (inr place) h above =
          note_all_notes ds (note_ancestors candidates e (ancestors e.path) best) d place h above
