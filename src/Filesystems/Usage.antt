-- ===== src/Filesystems/Usage.antt =====
-- `collect_snapshot_filesystem_usage` of collect/filesystems.py. What `os.statvfs` answers at each
-- mount point is an argument.
use watchdirs.Prelude.{
  ℕ, ◌*◌, String, Bool, false, ◌&&◌, ◌||◌, not, Option, none, some, List, [], ◌∷◌, ◌++◌, ◌==◌,
  if◌then◌else◌, any, ◌⊎◌, inl, inr,
}
use watchdirs.Prelude.Bytes.{Bytes, bytes_eq, starts_with, path_separator}
use watchdirs.Prelude.Int.{ℤ, minus}
use watchdirs.Model.{MountInfo, MountPolicy}
use watchdirs.Mounts.Find.{normalize_path, find_mount_for_path}
use watchdirs.Mounts.Classify.{classify_mount}

-- the fields of `os.statvfs_result` that are read
pub record StatVfs : Type 0 where
  pub f_frsize : ℕ
  pub f_bsize : ℕ
  pub f_blocks : ℕ
  pub f_bfree : ℕ
  pub f_bavail : ℕ

-- `SnapshotFilesystemUsage`
pub record FilesystemUsage : Type 0 where
  pub snapshot_id : ℕ
  pub mount_id : ℕ
  pub major_minor : String
  pub root : Bytes
  pub mount_point : Bytes
  pub filesystem_type : String
  pub mount_source : String
  pub total_bytes : Option ℕ
  pub used_bytes : Option ℤ
  pub free_bytes : Option ℕ
  pub available_bytes : Option ℕ
  pub capture_error : Option String

-- `stat.f_frsize or stat.f_bsize`
abbrev pub block_size : StatVfs → ℕ
block_size s = if s.f_frsize == 0 then s.f_bsize else s.f_frsize

-- what a number of bytes is where `os.statvfs` answers, and none where it raises
abbrev answered {ℓ} : {A : Type ℓ} → (StatVfs → A) → String ⊎ StatVfs → Option A
answered f (inl error) = none
answered f (inr s) = some (f s)

abbrev error_of : String ⊎ StatVfs → Option String
error_of (inl error) = some error
error_of (inr s) = none

-- `_filesystem_usage_row`, by the answer of `os.statvfs` (inl: the text of the error)
abbrev pub filesystem_usage_row : ℕ → MountInfo → String ⊎ StatVfs → FilesystemUsage
filesystem_usage_row snapshot_id mount answer = record {
  snapshot_id = snapshot_id;
  mount_id = mount.mount_id;
  major_minor = mount.major_minor;
  root = mount.root;
  mount_point = mount.mount_point;
  filesystem_type = mount.filesystem_type;
  mount_source = mount.mount_source;
  total_bytes = answered (λ s. s.f_blocks * block_size s) answer;
  used_bytes = answered (λ s. minus (s.f_blocks * block_size s) (s.f_bfree * block_size s)) answer;
  free_bytes = answered (λ s. s.f_bfree * block_size s) answer;
  available_bytes = answered (λ s. s.f_bavail * block_size s) answer;
  capture_error = error_of answer;
}

abbrev is_mount : Option MountInfo → MountInfo → Bool
is_mount none mount = false
is_mount (some m) mount = mount.mount_id == m.mount_id

-- `_mount_is_in_scope`
pub mount_is_in_scope : MountInfo → Option MountInfo → Bytes → Bytes → Bool
mount_is_in_scope mount root_mount mount_point root_raw =
    bytes_eq root_raw path_separator
    || (is_mount root_mount mount
        || (bytes_eq mount_point root_raw || starts_with mount_point (root_raw ++ path_separator)))

-- The root, normalized, with its mount.
pub record Scope : Type 0 where
  pub snapshot_id : ℕ
  pub root_raw : Bytes
  pub root_mount : Option MountInfo
  pub mount_policy : MountPolicy

-- the normalized mount point
abbrev pub point : Bytes → Bytes
point mount_point = normalize_path mount_point

-- in scope, and included by the policy
abbrev pub is_wanted : Scope → MountInfo → Bool
is_wanted c mount =
    mount_is_in_scope mount c.root_mount (point mount.mount_point) c.root_raw
    && (classify_mount (some mount) c.mount_policy).include

module _ (statvfs : Bytes → String ⊎ StatVfs) (c : Scope) where
  abbrev pub usage_row : MountInfo → FilesystemUsage
  usage_row mount = filesystem_usage_row c.snapshot_id mount (statvfs mount.mount_point)

  -- the loop, with `seen_mount_points`
  unfoldable pub collect_from : List Bytes → List MountInfo → List FilesystemUsage
  collect_from seen [] = []
  collect_from seen (mount ∷ mounts) =
      let at = point mount.mount_point in
      let takes = not (any (bytes_eq at) seen) && is_wanted c mount in
      let rest = collect_from (if takes then at ∷ seen else seen) mounts in
      if takes then usage_row mount ∷ rest else rest

abbrev pub scope_of : ℕ → Bytes → List MountInfo → MountPolicy → Scope
scope_of snapshot_id root_path mounts policy = record {
  snapshot_id = snapshot_id;
  root_raw = point root_path;
  root_mount = find_mount_for_path (point root_path) mounts;
  mount_policy = policy;
}

unfoldable pub collect_snapshot_filesystem_usage :
    (Bytes → String ⊎ StatVfs) → ℕ → Bytes → List MountInfo → MountPolicy → List FilesystemUsage
collect_snapshot_filesystem_usage statvfs snapshot_id root_path mounts policy =
    collect_from statvfs (scope_of snapshot_id root_path mounts policy) [] mounts
