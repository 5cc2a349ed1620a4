-- ===== src/Tests/Mounts.antt =====
-- The theorems about collect/mounts.py and collect/classify.py at concrete mounts.
use watchdirs.Prelude.{
  ℕ, ◌≡◌, ◌↔◌, ◌⊎◌, refl, Bool, true, false, ◌&&◌, ◌||◌, not, none, some, List, [], ◌∷◌, ◌++◌,
  arith, ◌==◌, All, ltb,
}
use text.Mathlib.Text.{◌==◌ as str_eq}
use watchdirs.Prelude.Bytes.{Bytes, path_separator}
use watchdirs.Model.{MountInfo}
use watchdirs.Mounts.Unescape.{unescape_mount_path, ok, escape, unescape-escape}
use watchdirs.Mounts.Find.{
  find_mount_for_path, find_mount_for_path_lem, path_matches_mount, path_matches_mount_iff, matches,
  normalize_path, IsLongest,
}
use watchdirs.Mounts.Classify.{
  classify_mount, classify_mount_iff, default_policy, is_default_virtual_filesystem, includes,
}

-- "a b\"
abbrev spaced : Bytes
spaced = 0x61 ∷ 0x20 ∷ 0x62 ∷ 0x5c ∷ []

abbrev is_special : ℕ → Bool
is_special c = ltb c 33 || c == 0x5c

unescape-escape_example : unescape_mount_path (escape is_special spaced) ≡ ok spaced
unescape-escape_example =
    unescape-escape is_special spaced refl
      (omega arith, (omega arith, (omega arith, (omega arith, tt))))

abbrev mount_at : Bytes → MountInfo
mount_at point = record {
  mount_id = 36;
  parent_id = 1;
  major_minor = "8:1";
  root = path_separator;
  mount_point = point;
  options = "rw" ∷ [];
  filesystem_type = "ext4";
  mount_source = "/dev/sda1";
  super_options = [];
}

-- "/h", "/h/x" and "/hx"
abbrev home : Bytes
home = 0x2f ∷ 0x68 ∷ []

abbrev below_home : Bytes
below_home = 0x2f ∷ 0x68 ∷ 0x2f ∷ 0x78 ∷ []

abbrev two_mounts : List MountInfo
two_mounts = mount_at path_separator ∷ mount_at home ∷ []

find_mount_for_path_example :
    ((find_mount_for_path below_home two_mounts ≡ none)
      × All (λ k. matches (normalize_path below_home) k ≡ false) two_mounts)
    ⊎ ((m : MountInfo) × (find_mount_for_path below_home two_mounts ≡ some m)
        × IsLongest (normalize_path below_home) m two_mounts)
find_mount_for_path_example = find_mount_for_path_lem below_home two_mounts

path_matches_mount_example : (path_matches_mount below_home home ≡ true) ↔ (
    (home ≡ path_separator)
    ⊎ (below_home ≡ home)
    ⊎ ((rest : Bytes) × (below_home ≡ (home ++ path_separator) ++ rest)))
path_matches_mount_example = path_matches_mount_iff below_home home

classify_mount_example : (classify_mount (some (mount_at home)) default_policy).include ≡ (
    includes default_policy.included_filesystems "ext4"
    || not (
        is_default_virtual_filesystem (some "ext4")
        || (includes default_policy.skipped_filesystems "ext4"
            || (default_policy.skip_overlay && str_eq "ext4" "overlay"))))
classify_mount_example = classify_mount_iff (mount_at home) default_policy
