-- ===== src/Mounts/Classify.antt =====
-- collect/classify.py: whether a mount is scanned.
use text.Mathlib.Text.{◌==◌ as str_eq}
use text.Mathlib.TextEquality.{eq_iff}
use watchdirs.Prelude.{
  String, ◌≡◌, refl, Bool, true, false, ◌&&◌, ◌||◌, not, Option, none, some, List, [], ◌∷◌, arith,
  if◌then◌else◌, any, Bool-cases, inl, inr,
}
use watchdirs.Model.{MountInfo, MountDecision, MountPolicy, Message}

-- `name in set`
abbrev pub includes : List String → String → Bool
includes names name = any (λ n. str_eq n name) names

-- `DEFAULT_SKIPPED_FILESYSTEMS`
unfoldable pub default_skipped_filesystems : List String
default_skipped_filesystems =
    "proc" ∷ "sysfs" ∷ "devtmpfs" ∷ "devpts" ∷ "tmpfs" ∷ "cgroup2" ∷ "pstore" ∷ "securityfs"
    ∷ "debugfs" ∷ "tracefs" ∷ "configfs" ∷ "fusectl" ∷ "nsfs" ∷ []

pub is_default_virtual_filesystem : Option String → Bool
is_default_virtual_filesystem none = false
is_default_virtual_filesystem (some name) = includes default_skipped_filesystems name

-- `MountPolicy()`
abbrev pub default_policy : MountPolicy
default_policy = record {
  skipped_filesystems = [];
  included_filesystems = [];
  skip_overlay = true;
  skip_namespace = true;
  one_filesystem = true;
}

abbrev pub decide_mount : MountInfo → Bool → Message → MountDecision
decide_mount mount include reason = record {
  include = include;
  reason = reason;
  filesystem_type = some mount.filesystem_type;
  mount_id = some mount.mount_id;
  device_changed = false;
}

-- The set that the last test looks in is the union of the default and the configured one.
pub classify_known : MountInfo → MountPolicy → MountDecision
classify_known mount policy =
    let kind = mount.filesystem_type in
    if includes policy.included_filesystems kind
    then decide_mount mount true (Message.explicitly_included kind)
    else if policy.skip_overlay && str_eq kind "overlay"
    then decide_mount mount false Message.overlay_skipped
    else if policy.skip_namespace && str_eq kind "nsfs"
    then decide_mount mount false Message.nsfs_skipped
    else if includes default_skipped_filesystems kind || includes policy.skipped_filesystems kind
    then decide_mount mount false (Message.skipped_by_default kind)
    else decide_mount mount true (Message.included kind)

pub classify_mount : Option MountInfo → MountPolicy → MountDecision
unfolding classify_known
classify_mount none policy = record {
  include = true;
  reason = Message.no_classification;
  filesystem_type = none;
  mount_id = none;
  device_changed = false;
}
classify_mount (some mount) policy = classify_known mount policy

nsfs_is_default :
    (kind : String) → str_eq kind "nsfs" ≡ true → includes default_skipped_filesystems kind ≡ true
unfolding default_skipped_filesystems
nsfs_is_default kind h = rw ((eq_iff kind "nsfs").0 h) refl

-- A mount is scanned exactly when its type is configured as included, or it is neither a default
-- virtual filesystem nor configured as skipped nor an overlay while overlays are skipped. So
-- `skip_namespace` decides nothing: nsfs is a default virtual filesystem.
pub classify_mount_iff :
    (mount : MountInfo) (policy : MountPolicy)
    → (classify_mount (some mount) policy).include ≡ (
        includes policy.included_filesystems mount.filesystem_type
        || not (
            is_default_virtual_filesystem (some mount.filesystem_type)
            || (includes policy.skipped_filesystems mount.filesystem_type
                || (policy.skip_overlay && str_eq mount.filesystem_type "overlay"))))
unfolding classify_mount is_default_virtual_filesystem
classify_mount_iff mount policy = elim (Bool-cases (str_eq mount.filesystem_type "nsfs")) [
  | inl nsfs ↦ ground (arith, nsfs_is_default mount.filesystem_type nsfs)
  | inr other ↦ ground arith
]
