-- ===== src/Retention/Prune/Outcome.antt =====
-- The whole of `prune_snapshots`: what it deletes, what it counts, and that its two ways of
-- committing end in the same database.
use mathlib.Core.Path.{fun_ext}
use watchdirs.Prelude.{
  ℕ, ◌+◌, ◌≡◌, refl, ◌∙◌, ap, sym, String, Bool, true, false, ◌&&◌, not, List, [], ◌∷◌, arith, ◌==◌,
  filter, any, length, Member,
}
use watchdirs.Model.{SnapshotRecord}
use watchdirs.Model.Time.{DateTime}
use watchdirs.Db.Tables.{Interval, Diagnostic, Database, states_at}
use watchdirs.Retention.Policy.{RetentionPolicy, Result, ok, ◌>>=◌}
use watchdirs.Retention.Select.{select_retained_snapshot_ids}
use watchdirs.Retention.Prune.{
  normalize_interval_boundaries, delete_snapshot_batch, delete_orphan_paths, delete_batches,
  prune_with_committed_batches, prune_in_one_transaction, PruneResult, deleted_ids, prune_snapshots,
  retained_complete,
}

module _ {ℓ} {A : Type ℓ} where
  filter_all : (p : A → Bool) (xs : List A) → ((a : A) → p a ≡ true) → filter p xs ≡ xs
  filter_all p [] h = refl
  filter_all p (x ∷ xs) h = ground (arith, h x, filter_all p xs h)

  filter-filter :
      (p q r : A → Bool) (xs : List A)
      → ((a : A) → (p a && q a) ≡ r a)
      → filter q (filter p xs) ≡ filter r xs
  filter-filter p q r [] h = refl
  filter-filter p q r (x ∷ xs) h = ground (arith, h x, filter-filter p q r xs h)

abbrev among : List ℕ → ℕ → Bool
among ids id = any (λ i. i == id) ids

delete_batch_cons :
    (id : ℕ) (ids : List ℕ) (db : Database)
    → delete_snapshot_batch ids (delete_snapshot_batch (id ∷ []) db)
      ≡ delete_snapshot_batch (id ∷ ids) db
unfolding delete_snapshot_batch
delete_batch_cons id ids db =
    let s =
      filter-filter (λ (s : SnapshotRecord). not (among (id ∷ []) s.id)) (λ s. not (among ids s.id))
        (λ s. not (among (id ∷ ids) s.id)) db.snapshots (λ s. ground arith) in
    let d =
      filter-filter (λ (d : Diagnostic). not (among (id ∷ []) d.snapshot_id))
        (λ d. not (among ids d.snapshot_id)) (λ d. not (among (id ∷ ids) d.snapshot_id))
        db.diagnostics (λ d. ground arith) in
    λ i. record db { snapshots = s i; diagnostics = d i }

delete_batch_nil : (db : Database) → db ≡ delete_snapshot_batch [] db
unfolding delete_snapshot_batch
delete_batch_nil db =
    let s = filter_all (λ (s : SnapshotRecord). not (among [] s.id)) db.snapshots (λ s. refl) in
    let d =
      filter_all (λ (d : Diagnostic). not (among [] d.snapshot_id)) db.diagnostics (λ d. refl) in
    λ i. record db { snapshots = sym s i; diagnostics = sym d i }

-- Deleting the snapshots one by one is deleting them at once.
delete_batches-batch :
    (ids : List ℕ) (db : Database) → delete_batches ids db ≡ delete_snapshot_batch ids db
unfolding delete_batches
delete_batches-batch [] db = delete_batch_nil db
delete_batches-batch (id ∷ ids) db =
    delete_batches-batch ids (delete_snapshot_batch (id ∷ []) db) ∙ delete_batch_cons id ids db

one_transaction :
    (deleted retained : List ℕ) (db : Database)
    → prune_with_committed_batches deleted retained db
      ≡ prune_in_one_transaction deleted retained db
unfolding prune_with_committed_batches prune_in_one_transaction
one_transaction [] retained db = unfold delete_batches in refl
one_transaction (id ∷ ids) retained db =
    ap
      (λ (f : List Interval → Result (Database × ℕ)).
        normalize_interval_boundaries retained db.snapshots db.intervals >>= f)
      (fun_ext (λ intervals.
        ap (λ d. ok (delete_orphan_paths d))
          (delete_batches-batch (id ∷ ids) (record db { intervals = intervals }))))

-- Pruning in committed batches and pruning in one transaction have the same result and leave the
-- same database, and fail alike.
pub prune_snapshots_commit :
    (local_time : DateTime → DateTime) (policy : RetentionPolicy) (now : DateTime) (db : Database)
    → prune_snapshots local_time policy now true db ≡ prune_snapshots local_time policy now false db
unfolding prune_snapshots
prune_snapshots_commit local_time policy now db =
    ap
      (λ (f : List ℕ → Result (PruneResult × Database)).
        select_retained_snapshot_ids local_time policy now db.snapshots >>= f)
      (fun_ext (λ retained. rw (one_transaction (deleted_ids retained db.snapshots) retained db)))

-- The outcome of a prune that keeps `retained`.
pub record Pruned (retained : List ℕ) (before : Database) (r : PruneResult) (after : Database)
    : Type 0 where
  -- the retained snapshots are left, and only they
  pub snapshots : after.snapshots ≡ filter (λ s. among retained s.id) before.snapshots
  -- every answer about a retained complete snapshot is as it was
  pub answers :
      (root : String) (s p : ℕ)
      → Member s (retained_complete retained root before.snapshots)
      → states_at root p s after.intervals ≡ states_at root p s before.intervals
  -- the counts agree with the tables
  pub before_count : r.snapshots_before ≡ length before.snapshots
  pub after_count : r.snapshots_after ≡ length after.snapshots
  pub deleted_count : r.snapshots_after + r.deleted_snapshot_count ≡ r.snapshots_before
  pub paths_count : r.deleted_path_count + length after.paths ≡ length before.paths
