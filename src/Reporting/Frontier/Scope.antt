-- ===== src/Reporting/Frontier/Scope.antt =====
-- reporting/frontier.py: the candidates of one scope, which of them a descendant stands for, and
-- which of them an ancestor stands for.
use watchdirs.Prelude.{
  ℕ, suc, ◌*◌, Bool, true, false, Option, none, some, List, [], ◌∷◌, ◌++◌, leb, ltb, if◌then◌else◌,
  length, filter, any,
}
use watchdirs.Prelude.Bytes.{Bytes, bytes_eq}
use watchdirs.Prelude.Sorting.{last_where}
use watchdirs.Reporting.Rows.{DiffRow, gain}
use watchdirs.Reporting.Ancestors.{ancestors}

abbrev pub has_path : Bytes → DiffRow → Bool
has_path p row = bytes_eq row.path p

-- `candidate_by_path.get(p)`: of two candidates with one path the last one counts
abbrev pub candidate_at : List DiffRow → Bytes → Option DiffRow
candidate_at candidates p = last_where (has_path p) candidates

-- `descendant.disk_bytes_delta >= ancestor.disk_bytes_delta * FRONTIER_DOMINANCE_RATIO`
abbrev pub dominates : DiffRow → DiffRow → Bool
dominates descendant ancestor = leb (19 * gain ancestor) (20 * gain descendant)

abbrev pub is_dominated : List (Bytes × DiffRow) → Bytes → Bool
is_dominated [] p = false
is_dominated ((q, d) ∷ best) p = if bytes_eq q p then true else is_dominated best p

-- `best_descendant_by_ancestor.setdefault(p, descendant)`
abbrev pub set_default : List (Bytes × DiffRow) → Bytes → DiffRow → List (Bytes × DiffRow)
set_default best p descendant = if is_dominated best p then best else best ++ ((p, descendant) ∷ [])

abbrev pub note_found :
    DiffRow → Bytes → Option DiffRow → List (Bytes × DiffRow) → List (Bytes × DiffRow)
note_found descendant p none best = best
note_found descendant p (some ancestor) best =
    if dominates descendant ancestor then set_default best p descendant else best

-- the walk from one descendant
unfoldable pub note_ancestors :
    List DiffRow → DiffRow → List Bytes → List (Bytes × DiffRow) → List (Bytes × DiffRow)
note_ancestors candidates descendant [] best = best
note_ancestors candidates descendant (p ∷ ps) best =
    note_ancestors candidates descendant ps
      (note_found descendant p (candidate_at candidates p) best)

unfoldable pub note_all :
    List DiffRow → List DiffRow → List (Bytes × DiffRow) → List (Bytes × DiffRow)
note_all candidates [] best = best
note_all candidates (d ∷ ds) best =
    note_all candidates ds (note_ancestors candidates d (ancestors d.path) best)

-- `_dominated_ancestor_index`: each dominated path with the first descendant that dominates it
unfoldable pub dominated_ancestor_index : List DiffRow → List (Bytes × DiffRow)
dominated_ancestor_index candidates = note_all candidates candidates []

abbrev stands_for : Bytes → Bytes × DiffRow → Bool
stands_for p (q, d) = bytes_eq d.path p

-- `suppressed_ancestor_counts.get(p, 0)`
abbrev pub suppressed_ancestor_count : List (Bytes × DiffRow) → Bytes → ℕ
suppressed_ancestor_count best p = length (filter (stands_for p) best)

-- an entry of `retained_by_path` with that of `retained_order_by_path`
pub record Retained : Type 0 where
  pub row : DiffRow
  pub order : ℕ

abbrev pub is_at : Bytes → Retained → Bool
is_at p e = bytes_eq e.row.path p

abbrev pub is_retained : List Retained → Bytes → Bool
is_retained retained p = any (is_at p) retained

-- `best_path` and `best_order`
abbrev pub earlier : Option (Bytes × ℕ) → Bytes → ℕ → Option (Bytes × ℕ)
earlier none p order = some (p, order)
earlier (some (q, first)) p order = if ltb order first then some (p, order) else some (q, first)

abbrev pub suppresses : DiffRow → DiffRow → Bool
suppresses ancestor candidate = ltb (20 * gain candidate) (19 * gain ancestor)

abbrev pub pick : DiffRow → Option (Bytes × ℕ) → Bytes → Option Retained → Option (Bytes × ℕ)
pick candidate best p none = best
pick candidate best p (some e) = if suppresses e.row candidate then earlier best p e.order else best

unfoldable pub pick_from :
    List Retained → DiffRow → Option (Bytes × ℕ) → List Bytes → Option (Bytes × ℕ)
pick_from retained candidate best [] = best
pick_from retained candidate best (p ∷ ps) =
    pick_from retained candidate (pick candidate best p (last_where (is_at p) retained)) ps

-- `_first_retained_suppressing_ancestor`
abbrev pub first_suppressor : List Retained → DiffRow → Option (Bytes × ℕ)
first_suppressor retained candidate = pick_from retained candidate none (ancestors candidate.path)

-- what one candidate does to the retained ones and to the paths that suppressed one
abbrev pub keep_or_suppress :
    ℕ → DiffRow → Option (Bytes × ℕ) → List Retained × List Bytes → List Retained × List Bytes
keep_or_suppress order candidate (some (p, first)) (retained, suppressors) =
    (retained, suppressors ++ (p ∷ []))
keep_or_suppress order candidate none (retained, suppressors) =
    (retained ++ ((record { row = candidate; order = order }) ∷ []), suppressors)

unfoldable pub suppress_from :
    ℕ → List DiffRow → List Retained × List Bytes → List Retained × List Bytes
suppress_from order [] s = s
suppress_from order (c ∷ cs) s =
    suppress_from (suc order) cs (keep_or_suppress order c (first_suppressor s.0 c) s)

-- `_suppressed_descendant_index`: the retained ones, and the suppressor of each other one
unfoldable pub suppressed_descendant_index : List DiffRow → List Retained × List Bytes
suppressed_descendant_index surviving = suppress_from 0 surviving ([], [])

-- `suppressed_descendant_counts.get(p, 0)`
abbrev pub suppressed_descendant_count : List Bytes → Bytes → ℕ
suppressed_descendant_count suppressors p = length (filter (bytes_eq p) suppressors)
