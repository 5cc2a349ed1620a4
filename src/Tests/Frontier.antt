-- ===== src/Tests/Frontier.antt =====
-- The theorems about reporting/frontier.py at concrete rows.
use watchdirs.Prelude.{ℕ, refl, sym, ◌∙◌, false, none, List, [], ◌∷◌, inl, inr, Member, arith}
use watchdirs.Prelude.Bytes.{Bytes, bytes_eq, bytes_lt}
use watchdirs.Prelude.Int.{pos}
use watchdirs.Reporting.Rows.{DiffRow, Metrics, Classification, FrontierRow, Reason}
use watchdirs.Reporting.Ancestors.{ancestors, ancestors_within, parent_of}
use watchdirs.Reporting.Frontier.Scope.{
  dominated_ancestor_index, note_all, note_ancestors, suppressed_descendant_index, suppress_from,
  pick_from,
}
use watchdirs.Reporting.Frontier.{prune_growth_frontier, prune_scope, in_scope}
use watchdirs.Reporting.Frontier.Covers.{Covered, prune_growth_frontier-Covered}
use watchdirs.Reporting.Frontier.Apart.{HasOnePathPerScope, prune_growth_frontier_apart}

abbrev no_metrics : Metrics
no_metrics = record {
  apparent_bytes = 0;
  disk_bytes = 0;
  hardlink_file_count = 0;
  hardlink_duplicate_count = 0;
  hardlink_duplicate_disk_bytes = 0;
  hardlink_first_seen_disk_bytes = 0;
}

abbrev grown_at : Bytes → ℕ → DiffRow
grown_at path bytes = record {
  root_path = "/";
  baseline_snapshot_id = 1;
  current_snapshot_id = 2;
  path = path;
  parent_path = none;
  depth = 1;
  classification = Classification.grown;
  previous = no_metrics;
  current = no_metrics;
  apparent_bytes_delta = pos bytes;
  disk_bytes_delta = pos bytes;
  hardlink_file_count_delta = pos 0;
  hardlink_duplicate_count_delta = pos 0;
  hardlink_duplicate_disk_bytes_delta = pos 0;
  hardlink_first_seen_disk_bytes_delta = pos 0;
  error = none;
  collapsed = false;
  collapse_reason = none;
  collapsed_dirs = none;
  top_child_path = none;
  top_child_disk_bytes = none;
  group = none;
}

abbrev path_a : Bytes
path_a = b'/' ∷ b'a' ∷ []

abbrev path_ab : Bytes
path_ab = b'/' ∷ b'a' ∷ b'/' ∷ b'b' ∷ []

abbrev path_c : Bytes
path_c = b'/' ∷ b'c' ∷ []

-- /a with /a/b, which is much smaller, and /c
abbrev three_rows : List DiffRow
three_rows = grown_at path_ab 10 ∷ grown_at path_c 70 ∷ grown_at path_a 100 ∷ []

three_rows_once : HasOnePathPerScope three_rows
three_rows_once a b (inl e) (inl f) s p = e ∙ sym f
three_rows_once a b (inl e) (inr (inl f)) s p = absurd (ground (arith, p))
three_rows_once a b (inl e) (inr (inr (inl f))) s p = absurd (ground (arith, p))
three_rows_once a b (inr (inl e)) (inl f) s p = absurd (ground (arith, p))
three_rows_once a b (inr (inl e)) (inr (inl f)) s p = e ∙ sym f
three_rows_once a b (inr (inl e)) (inr (inr (inl f))) s p = absurd (ground (arith, p))
three_rows_once a b (inr (inr (inl e))) (inl f) s p = absurd (ground (arith, p))
three_rows_once a b (inr (inr (inl e))) (inr (inl f)) s p = absurd (ground (arith, p))
three_rows_once a b (inr (inr (inl e))) (inr (inr (inl f))) s p = e ∙ sym f
three_rows_once a b (inl e) (inr (inr (inr none_))) s p = elim none_ [ ]
three_rows_once a b (inr (inl e)) (inr (inr (inr none_))) s p = elim none_ [ ]
three_rows_once a b (inr (inr (inl e))) (inr (inr (inr none_))) s p = elim none_ [ ]
three_rows_once a b (inr (inr (inr none_))) _ s p = elim none_ [ ]

abbrev shown_a : FrontierRow
shown_a = record {
  row = grown_at path_a 100;
  suppressed_descendant_count = 1;
  suppressed_ancestor_count = 0;
  reason = Reason.suppresses_descendants;
}

abbrev shown_c : FrontierRow
shown_c = record {
  row = grown_at path_c 70;
  suppressed_descendant_count = 0;
  suppressed_ancestor_count = 0;
  reason = Reason.highest_signal;
}

prune_growth_frontier_apart_example : ¬ Member path_a (ancestors path_c)
unfolding prune_growth_frontier prune_scope in_scope dominated_ancestor_index note_all
    note_ancestors suppressed_descendant_index suppress_from pick_from ancestors ancestors_within
    parent_of bytes_eq bytes_lt
prune_growth_frontier_apart_example =
    prune_growth_frontier_apart three_rows three_rows_once shown_a shown_c (inl refl)
      (inr (inl refl)) refl

prune_growth_frontier-Covered_example :
    Covered three_rows (prune_growth_frontier three_rows) (grown_at path_ab 10)
prune_growth_frontier-Covered_example =
    prune_growth_frontier-Covered three_rows three_rows_once (grown_at path_ab 10) (inl refl) refl
