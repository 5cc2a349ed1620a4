-- ===== src/Lib.antt =====
-- watchdirs records how much disk space each directory of configured roots takes, keeps the
-- snapshots as history in sqlite, and prunes that history.
--
-- A collection runs in this order. The mounts are read (src/watchdirs/collect/mounts.py) and each is
-- classified by policy (collect/classify.py). The scanner (collect/scanner.py) walks a root without
-- leaving it, and returns one row per directory with totals. The store (db/migrations.py) makes a
-- snapshot, writes the rows through a dictionary of paths, and on finishing a COMPLETE snapshot
-- turns the rows into interval versions: one version per change of a path, with half-open bounds.
-- Retention (db/retention.py) selects which snapshots to keep and prunes the rest.
--
-- Which file models which part (all paths below src/watchdirs/):
--   Model/Status.antt, Model/Rows.antt    models.py: statuses and the records that are exchanged.
--       A message is its constructor with its arguments in place of the formatted text.
--   Model/Time.antt     the timestamps that the store compares, as Python's `datetime`.
--   Mounts/Unescape.antt, Mounts/Find.antt    collect/mounts.py: `unescape_mount_path`,
--       `find_mount_for_path`.
--   Mounts/Classify.antt    collect/classify.py: `classify_mount`.
--   Scanner/Files.antt  what `stat`, `is_dir` and `scandir` answer below a root, as a tree.
--   Scanner/Policy.antt, Descend.antt, Rows.antt, Machine.antt, Steps.antt, Root.antt    collect/scanner.py:
--       its decisions, its frames and rows, its state, its handlers (one function each:
--       `_initialize_frame`, `_process_frame_entry`, `_process_directory_entry`,
--       `_process_file_entry`, `_finish_frame`), `_scan_stack`, and `scan_root`.
--   Scanner/Turns.antt, Running.antt, Preserve.antt, PreserveEntries.antt, Loop.antt, Outcome.antt,
--       Scanned.antt and Failed.antt: their proofs, that the loop ends, the invariant between two
--       turns, and the result.
--   Db/Tables.antt, Db/Paths.antt, Db/Promote/Defs.antt, Db/Snapshots.antt    db/schema.sql and
--       db/migrations.py: the tables as lists of rows; `_resolve_path_id` and
--       `_directory_row_values`; `_promote_complete_snapshot`; `create_snapshot`,
--       `insert_directory_rows`, `finalize_snapshot`. Their proofs are in Db/Paths/RoundTrip.antt,
--       Db/Paths/Resolve.antt, Db/Promote/Effects.antt, Vanished.antt, Versions.antt, History.antt and
--       Db/Snapshots/Collect.antt.
--   Retention/Policy.antt, Best.antt, Select.antt, Prune.antt    db/retention.py: `RetentionPolicy`,
--       the dictionaries of representatives, `select_retained_snapshot_ids`, `prune_snapshots`.
--       Their proofs are in Retention/Select/Reading.antt, Select/Exact.antt, Prune/Bounds.antt,
--       Prune/Normalize.antt and Prune/Outcome.antt.
--   Filesystems/Usage.antt    collect/filesystems.py: `collect_snapshot_filesystem_usage`. Its proof
--       is in Filesystems/Collected.antt.
--   Reporting/Since.antt, Pairs.antt, Pairs/Roots.antt    reporting/pairs.py:
--       `parse_since`, `resolve_snapshot_pair_by_ids` and `resolve_snapshot_pairs`. Their proofs are in
--       Pairs/Comparable.antt and Pairs/Window.antt.
--   Lock/Processes.antt, Lock/Waiting.antt    ops_lock.py: any number of processes that share the lock
--       file, as a step relation in which they and the clock move in any order, and the loop of
--       `acquire_operation_lock` as one process sees it. The proofs of the first are in
--       Lock/Exclusion.antt.
--   Diagnostics/Rows.antt, Lsof.antt, DeletedOpen/Sources.antt, DeletedOpen.antt
--       diagnostics/deleted_open.py: its rows, `parse_lsof_field_output` with its handlers, lsof and
--       /proc as sources, and `collect_deleted_open_files`. Lsof/Printed.antt says what lsof
--       prints; the proofs are in Lsof/Framing.antt, Lsof/Fields.antt, Lsof/RoundTrip.antt,
--       Lsof/Sizes.antt, DeletedOpen/Held.antt, DeletedOpen/Gathered.antt and DeletedOpen/Report.antt.
--   Diagnostics/DfIndex/Rows.antt, DfIndex/Mismatch.antt, DfIndex.antt    diagnostics/df_index.py: what
--       decides about a domain, its section, and `build_df_index_diagnostic` over the totals that
--       the index query returns. Its proofs are in DfIndex/Reconciled.antt and DfIndex/Index.antt.
--   Reporting/Trends.antt    reporting/trends.py: `analyze_trend` and `_classify_shape`. Its proofs are in
--       Trends/Sums.antt and Trends/Shapes.antt.
--   Reporting/Rows.antt, Ancestors.antt, Frontier/Scope.antt, Frontier.antt    reporting/frontier.py:
--       `_parent_of`, the two indexes of a scope, and `prune_growth_frontier`. Its proofs are in
--       Frontier/Dominated.antt, Suppress.antt, Apart.antt, Noted.antt, Settled.antt and Covers.antt.
--   Mounts/Parse.antt    collect/mounts.py: `parse_mountinfo` with `_iter_lines` and
--       `_split_csv_bytes`. Its proofs are in Parse/Words.antt, Parse/Lines.antt,
--       Parse/RoundTrip.antt, which also says what the kernel prints, Parse/Separator.antt and
--       Parse/Failures.antt.
--   Prelude.antt    the names and lemmas that all share: tests on numbers, lists, bytes, and
--       dictionaries as lists of pairs. Below it, Int.antt has integers, Text.antt and Strings.antt
--       Python's operations on texts, Stable.antt and Permuted.antt its sort, and Cut.antt and
--       Members.antt lemmas on slices and members.
--   Tests.antt      the theorems at concrete inputs.
--
-- Numbers. Python's integers have no bound, and those of the modelled parts are never negative
-- unless a file says so, so they are natural numbers; where they may be negative, they are the
-- integers of Prelude/Int.antt. A ratio of floats that is compared with a bound is compared by
-- products of integers, and the file says where the two agree. A byte is a number; `unescape_mount_path`
-- states its bound of 256. An instant counts microseconds of the proleptic calendar, and a cutoff
-- before year 1 is an `OverflowError`.
--
-- Loops are structural recursion, but for `_scan_stack`. That loop takes fuel, and `scan_root` gives
-- it the number of entries and directories in the tree (`listing_turns`), which is enough.
--
-- Parameters. The clock, the time zone of a timestamp without an offset, and what the file system
-- answers are arguments. The paths of the options are taken as resolved.
--
-- Not modelled: the command line, configuration, rendering and SQL reports, which parse and print or
-- are SQL text; the diagnostics of docker and of the summary, which run other programs;
-- `explain_path_breakdown` and the path history, which read report rows; the slope and the
-- volatility of a trend, which are floats that nothing decides on; `vacuum_database` and the
-- connection, which are sqlite maintenance; schema upgrades.
-- Commits are left to the callers, and a transaction that raises is rolled back by sqlite.
pub mod Prelude
pub mod Model
pub mod Mounts
pub mod Scanner
pub mod Filesystems
pub mod Db
pub mod Reporting
pub mod Retention
pub mod Tests
pub mod Lock
pub mod Diagnostics
