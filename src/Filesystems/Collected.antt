-- ===== src/Filesystems/Collected.antt =====
-- Which filesystems collect/filesystems.py records: one row for each wanted mount point.
use watchdirs.Prelude.{
  ℕ, String, ◌≡◌, refl, Bool, true, false, ◌&&◌, ◌||◌, not, List, [], ◌∷◌, any, All, Member, arith,
  Bool-cases, inl, inr, ◌⊎◌, All-map,
}
use watchdirs.Prelude.Bytes.{Bytes, bytes_eq, bytes_eq_iff}
use watchdirs.Model.{MountInfo, MountPolicy}
use watchdirs.Filesystems.Usage.{
  StatVfs, FilesystemUsage, Scope, point, is_wanted, usage_row, collect_from, scope_of,
  collect_snapshot_filesystem_usage,
}

-- no two rows have one mount point
abbrev pub DistinctPoints : List FilesystemUsage → Type 0
DistinctPoints [] = Unit
DistinctPoints (r ∷ rows) =
    (any (λ q. bytes_eq (point r.mount_point) (point q.mount_point)) rows ≡ false)
    × DistinctPoints rows

-- Rows of wanted mounts, each mount point once, and each wanted mount's point among them.
pub record Collected (statvfs : Bytes → String ⊎ StatVfs) (c : Scope) (mounts : List MountInfo)
    (rows : List FilesystemUsage) : Type 0 where
  pub sound :
      All
        (λ r.
          (m : MountInfo) × Member m mounts × (is_wanted c m ≡ true) × (r ≡ usage_row statvfs c m))
        rows
  pub complete :
      All
        (λ m.
          is_wanted c m ≡ true
          → any (λ r. bytes_eq (point m.mount_point) (point r.mount_point)) rows ≡ true)
        mounts
  pub distinct : DistinctPoints rows

module _ (statvfs : Bytes → String ⊎ StatVfs) (c : Scope) where
  abbrev takes : List Bytes → MountInfo → Bool
  takes seen m = not (any (bytes_eq (point m.mount_point)) seen) && is_wanted c m

  -- A turn of the loop takes the mount or leaves it.
  collect_from-cases {κ} :
      (P : List FilesystemUsage → Type κ) (seen : List Bytes) (m : MountInfo) (ms : List MountInfo)
      → (takes seen m ≡ true
          → P (usage_row statvfs c m ∷ collect_from statvfs c (point m.mount_point ∷ seen) ms))
      → (takes seen m ≡ false → P (collect_from statvfs c seen ms))
      → P (collect_from statvfs c seen (m ∷ ms))
  unfolding collect_from
  collect_from-cases P seen m ms taken left = elim (Bool-cases (takes seen m)) [
    | inl e ↦ rw e (taken e)
    | inr e ↦ rw e (left e)
  ]

  abbrev Source : List MountInfo → FilesystemUsage → Type 0
  Source mounts r =
      (m : MountInfo) × Member m mounts × (is_wanted c m ≡ true) × (r ≡ usage_row statvfs c m)

  Source-later :
      (m : MountInfo) (ms : List MountInfo) (r : FilesystemUsage) → Source ms r → Source (m ∷ ms) r
  Source-later m ms r (k, place, wanted, row) = (k, inr place, wanted, row)

  collect_from_sound :
      (seen : List Bytes) (mounts : List MountInfo)
      → All (Source mounts) (collect_from statvfs c seen mounts)
  unfolding collect_from
  collect_from_sound seen [] = tt
  collect_from_sound seen (m ∷ ms) =
      collect_from-cases (All (Source (m ∷ ms))) seen m ms
        (λ e. (
          (m, inl refl, ground arith, refl),
          All-map (Source-later m ms) _ (collect_from_sound (point m.mount_point ∷ seen) ms),
        ))
        (λ e. All-map (Source-later m ms) _ (collect_from_sound seen ms))

  -- a point that is seen already, or the point of a row
  abbrev is_known : List Bytes → List FilesystemUsage → MountInfo → Bool
  is_known seen rows m =
      any (bytes_eq (point m.mount_point)) seen
      || any (λ r. bytes_eq (point m.mount_point) (point r.mount_point)) rows

  collect_from_complete :
      (seen : List Bytes) (mounts : List MountInfo)
      → All
          (λ m. is_wanted c m ≡ true → is_known seen (collect_from statvfs c seen mounts) m ≡ true)
          mounts
  unfolding collect_from
  collect_from_complete seen [] = tt
  collect_from_complete seen (m ∷ ms) =
      collect_from-cases
        (λ rows. All (λ k. is_wanted c k ≡ true → is_known seen rows k ≡ true) (m ∷ ms)) seen m ms
        (λ e. (
          λ wanted. ground (arith, bytes_eq_iff (point m.mount_point) (point m.mount_point)),
          All-map (λ k known wanted. ground (arith, known wanted)) ms
              (collect_from_complete (point m.mount_point ∷ seen) ms),
        ))
        (λ e. (λ wanted. ground arith, collect_from_complete seen ms))

  bytes_eq-false_sym : (a b : Bytes) → bytes_eq a b ≡ false → bytes_eq b a ≡ false
  bytes_eq-false_sym a b h = ground (arith, bytes_eq_iff a b, bytes_eq_iff b a)

  -- no row has a point that was seen before
  collect_from_unseen :
      (seen : List Bytes) (mounts : List MountInfo)
      → All
          (λ r. any (bytes_eq (point r.mount_point)) seen ≡ false)
          (collect_from statvfs c seen mounts)
  unfolding collect_from
  collect_from_unseen seen [] = tt
  collect_from_unseen seen (m ∷ ms) =
      collect_from-cases (All (λ r. any (bytes_eq (point r.mount_point)) seen ≡ false)) seen m ms
        (λ e. (
          ground arith,
          All-map (λ r unseen. ground arith) _
              (collect_from_unseen (point m.mount_point ∷ seen) ms),
        ))
        (λ e. collect_from_unseen seen ms)

  unseen-any :
      (p : Bytes) (seen : List Bytes) (rows : List FilesystemUsage)
      → All (λ r. any (bytes_eq (point r.mount_point)) (p ∷ seen) ≡ false) rows
      → any (λ q. bytes_eq p (point q.mount_point)) rows ≡ false
  unseen-any p seen [] h = refl
  unseen-any p seen (r ∷ rows) h =
      ground (arith, bytes_eq-false_sym (point r.mount_point) p, unseen-any p seen rows h.1)

  collect_from-DistinctPoints :
      (seen : List Bytes) (mounts : List MountInfo)
      → DistinctPoints (collect_from statvfs c seen mounts)
  unfolding collect_from
  collect_from-DistinctPoints seen [] = tt
  collect_from-DistinctPoints seen (m ∷ ms) =
      collect_from-cases DistinctPoints seen m ms
        (λ e. (
          unseen-any (point m.mount_point) seen _
              (collect_from_unseen (point m.mount_point ∷ seen) ms),
          collect_from-DistinctPoints (point m.mount_point ∷ seen) ms,
        ))
        (λ e. collect_from-DistinctPoints seen ms)

-- The rows are those of mounts that are in scope and that the policy includes, no two rows have the
-- same normalized mount point, and the mount point of each such mount is that of a row.
pub collect_snapshot_filesystem_usage-Collected :
    (statvfs : Bytes → String ⊎ StatVfs) (snapshot_id : ℕ) (root_path : Bytes)
    (mounts : List MountInfo) (policy : MountPolicy)
    → Collected statvfs
        (scope_of snapshot_id root_path mounts policy)
        mounts
        (collect_snapshot_filesystem_usage statvfs snapshot_id root_path mounts policy)
unfolding collect_snapshot_filesystem_usage
collect_snapshot_filesystem_usage-Collected statvfs snapshot_id root_path mounts policy =
    let c = scope_of snapshot_id root_path mounts policy in
    record {
      sound = collect_from_sound statvfs c [] mounts;
      complete = collect_from_complete statvfs c [] mounts;
      distinct = collect_from-DistinctPoints statvfs c [] mounts;
    }
