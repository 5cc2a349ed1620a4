-- ===== src/Reporting/Frontier.antt =====
-- `prune_growth_frontier` of reporting/frontier.py: the paths whose growth is reported. The ratio of
-- 0.95 is compared by products, as the source does in floats for growth below 2 ^ 48 bytes.
pub mod Scope
pub mod Dominated
pub mod Suppress
pub mod Noted
pub mod Settled
pub mod Apart
pub mod Covers
use text.Mathlib.Text.{◌==◌ as str_eq}
use watchdirs.Prelude.{
  ℕ, zero, suc, ◌+◌, ◌*◌, String, Bool, true, false, ◌&&◌, ◌||◌, not, Option, none, some, List, [],
  ◌∷◌, ◌++◌, leb, ltb, ◌==◌, if◌then◌else◌, length, filter, any, sorted, map,
}
use watchdirs.Prelude.Bytes.{Bytes, bytes_eq, bytes_lt}
use watchdirs.Prelude.Strings.{codes}
use watchdirs.Reporting.Rows.{
  DiffRow, gain, Classification, FrontierRow, Reason, dominates_and_hides, dominates_ancestors,
  suppresses_descendants, highest_signal,
}
use watchdirs.Reporting.Frontier.Scope.{
  Retained, dominated_ancestor_index, is_dominated, suppressed_ancestor_count,
  suppressed_descendant_index, suppressed_descendant_count, is_retained,
}

abbrev is_growth : Classification → Bool
is_growth Classification.created = true
is_growth Classification.grown = true
is_growth _ = false

abbrev pub is_candidate : DiffRow → Bool
is_candidate row = is_growth row.classification && ltb 0 (gain row)

-- the rest of the key once the first parts are equal
abbrev or_if_equal : Bool → Bool → Bool → Bool
or_if_equal less equal rest = less || (equal && rest)

-- the order of the candidates: growth and depth descending, then the scope and the path
abbrev pub candidate_lt : DiffRow → DiffRow → Bool
candidate_lt a b = or_if_equal (ltb (gain b) (gain a)) (gain a == gain b) (
    or_if_equal (ltb b.depth a.depth) (a.depth == b.depth) (
      or_if_equal (bytes_lt (codes a.root_path) (codes b.root_path))
        (bytes_eq (codes a.root_path) (codes b.root_path))
        (or_if_equal (ltb a.baseline_snapshot_id b.baseline_snapshot_id)
          (a.baseline_snapshot_id == b.baseline_snapshot_id)
          (or_if_equal (ltb a.current_snapshot_id b.current_snapshot_id)
            (a.current_snapshot_id == b.current_snapshot_id) (bytes_lt a.path b.path)))))

-- the key of `candidates_by_scope`
pub record ScopeKey : Type 0 where
  pub root_path : String
  pub baseline_snapshot_id : ℕ
  pub current_snapshot_id : ℕ

abbrev pub scope_of : DiffRow → ScopeKey
scope_of row = record {
  root_path = row.root_path;
  baseline_snapshot_id = row.baseline_snapshot_id;
  current_snapshot_id = row.current_snapshot_id;
}

unfoldable pub in_scope : ScopeKey → DiffRow → Bool
in_scope k row =
    str_eq k.root_path row.root_path
    && (k.baseline_snapshot_id == row.baseline_snapshot_id
        && k.current_snapshot_id == row.current_snapshot_id)

abbrev is_key_of : DiffRow → ScopeKey → Bool
is_key_of row k = in_scope k row

-- the keys of the dictionary, in the order in which they first come
keys_from : List ScopeKey → List DiffRow → List ScopeKey
keys_from seen [] = []
keys_from seen (row ∷ rows) =
    if any (is_key_of row) seen
    then keys_from seen rows
    else scope_of row ∷ keys_from (scope_of row ∷ seen) rows

-- `_reason_for_counts`
abbrev pub reason_for_counts : ℕ → ℕ → Reason
reason_for_counts descendants zero =
    if descendants == 0 then highest_signal else suppresses_descendants
reason_for_counts descendants (suc n) =
    if descendants == 0 then dominates_ancestors else dominates_and_hides

abbrev pub frontier_row : List (Bytes × DiffRow) → List Bytes → DiffRow → FrontierRow
frontier_row best suppressed row =
    let descendants = suppressed_descendant_count suppressed row.path in
    let ancestor_count = suppressed_ancestor_count best row.path in
    record {
      row = row;
      suppressed_descendant_count = descendants;
      suppressed_ancestor_count = ancestor_count;
      reason = reason_for_counts descendants ancestor_count;
    }

-- the body of the loop over the scopes
unfoldable pub prune_scope : List DiffRow → List FrontierRow
prune_scope candidates =
    let best = dominated_ancestor_index candidates in
    let surviving = filter (λ c. not (is_dominated best c.path)) candidates in
    let index = suppressed_descendant_index surviving in
    map (frontier_row best index.1) (filter (λ c. is_retained index.0 c.path) surviving)

prune_scopes : List ScopeKey → List DiffRow → List FrontierRow
prune_scopes [] candidates = []
prune_scopes (k ∷ ks) candidates =
    prune_scope (filter (in_scope k) candidates) ++ prune_scopes ks candidates

-- the order of the result
abbrev entry_lt : FrontierRow → FrontierRow → Bool
entry_lt a b = or_if_equal (ltb (gain b.row) (gain a.row)) (gain a.row == gain b.row) (
    or_if_equal (ltb b.row.depth a.row.depth) (a.row.depth == b.row.depth)
      (bytes_lt a.row.path b.row.path))

unfoldable pub prune_growth_frontier : List DiffRow → List FrontierRow
unfolding prune_scopes keys_from
prune_growth_frontier rows =
    let candidates = sorted candidate_lt (filter is_candidate rows) in
    sorted entry_lt (prune_scopes (keys_from [] candidates) candidates)
