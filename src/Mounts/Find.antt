-- ===== src/Mounts/Find.antt =====
-- `find_mount_for_path` of collect/mounts.py: the mount with the longest matching mount point.
use watchdirs.Prelude.{
  ℕ, ◌≤◌, ◌<◌, ◌≡◌, ◌⊎◌, refl, Bool, true, false, ◌&&◌, ◌||◌, Option, none, some, List, [], ◌∷◌,
  ◌++◌, arith, ltb, ◌==◌, if◌then◌else◌, Bool-cases, inl, inr, All, length, ap, ◌↔◌,
}
use watchdirs.Prelude.Bytes.{
  Bytes, bytes_eq, bytes_eq_iff, starts_with, starts_with-split, starts_with-append, path_separator,
}
use watchdirs.Model.{MountInfo}

-- `raw.rstrip(b"/")`
pub rstrip_separator : Bytes → Bytes
rstrip_separator [] = []
rstrip_separator (c ∷ cs) = elim (rstrip_separator cs) [
  | [] ↦ if c == b'/' then [] else c ∷ []
  | d ∷ ds ↦ c ∷ d ∷ ds
]

-- `_normalize_path_bytes` of bytes, and `_normalize_mount_point`
unfoldable pub normalize_path : Bytes → Bytes
normalize_path raw = elim (rstrip_separator raw) [ [] ↦ path_separator | c ∷ cs ↦ c ∷ cs ]

-- `_path_matches_mount`
pub path_matches_mount : Bytes → Bytes → Bool
path_matches_mount path mount_point =
    bytes_eq mount_point path_separator
    || (bytes_eq path mount_point || starts_with path (mount_point ++ path_separator))

abbrev pub matches : Bytes → MountInfo → Bool
matches path mount = path_matches_mount path (normalize_path mount.mount_point)

abbrev pub point_length : MountInfo → ℕ
point_length mount = length (normalize_path mount.mount_point)

-- the loop, with `best_match`; `best_length` is -1 while there is none
pub find_from : Bytes → Option MountInfo → List MountInfo → Option MountInfo
find_from path best [] = best
find_from path none (mount ∷ mounts) =
    find_from path (if matches path mount then some mount else none) mounts
find_from path (some best) (mount ∷ mounts) =
    find_from path
      (some (
        if matches path mount && ltb (point_length best) (point_length mount) then mount else best))
      mounts

pub find_mount_for_path : Bytes → List MountInfo → Option MountInfo
find_mount_for_path path mounts = find_from (normalize_path path) none mounts

-- A match whose mount point is longest, and longer than that of each match before it.
pub record IsLongest (path : Bytes) (m : MountInfo) (mounts : List MountInfo) : Type 0 where
  pub before : List MountInfo
  pub after : List MountInfo
  pub place : mounts ≡ before ++ m ∷ after
  pub match : matches path m ≡ true
  pub longer : All (λ k. matches path k ≡ true → point_length k < point_length m) before
  pub longest : All (λ k. matches path k ≡ true → point_length k ≤ point_length m) after

-- Either no mount of a list matches and the fold keeps `best`, or it ends at the longest.
module _ (path : Bytes) where
  keep_best :
      (best : MountInfo) (mounts : List MountInfo)
      → ((find_from path (some best) mounts ≡ some best)
          × All (λ k. matches path k ≡ true → point_length k ≤ point_length best) mounts)
        ⊎ ((m : MountInfo) × (find_from path (some best) mounts ≡ some m)
            × (point_length best < point_length m)
            × IsLongest path m mounts)
  unfolding find_from
  keep_best best [] = inl (refl, tt)
  keep_best best (k ∷ mounts) =
      elim (Bool-cases (matches path k && ltb (point_length best) (point_length k))) [
        | inl better ↦ elim (keep_best k mounts) [
          | inl (kept, top) ↦ inr (
            k,
            rw better kept,
            ground arith,
            record {
              before = [];
              after = mounts;
              place = refl;
              match = ground arith;
              longer = tt;
              longest = top;
            },
          )
          | inr (m, found, above, longest) ↦ inr (
            m,
            rw better found,
            ground arith,
            record {
              before = k ∷ longest.before;
              after = longest.after;
              place = ap (◌∷◌ k) longest.place;
              match = longest.match;
              longer = (λ _. above, longest.longer);
              longest = longest.longest;
            },
          )
        ]
        | inr worse ↦ elim (keep_best best mounts) [
          | inl (kept, top) ↦ inl (rw worse kept, (λ h. ground arith, top))
          | inr (m, found, above, longest) ↦ inr (
            m,
            rw worse found,
            above,
            record {
              before = k ∷ longest.before;
              after = longest.after;
              place = ap (◌∷◌ k) longest.place;
              match = longest.match;
              longer = (λ h. ground arith, longest.longer);
              longest = longest.longest;
            },
          )
        ]
      ]

  find_from-none :
      (mounts : List MountInfo)
      → ((find_from path none mounts ≡ none) × All (λ k. matches path k ≡ false) mounts)
        ⊎ ((m : MountInfo) × (find_from path none mounts ≡ some m) × IsLongest path m mounts)
  unfolding find_from
  find_from-none [] = inl (refl, tt)
  find_from-none (k ∷ mounts) = elim (Bool-cases (matches path k)) [
    | inl hit ↦ elim (keep_best k mounts) [
      | inl (kept, top) ↦ inr (
        k,
        rw hit kept,
        record {
          before = [];
          after = mounts;
          place = refl;
          match = hit;
          longer = tt;
          longest = top;
        },
      )
      | inr (m, found, above, longest) ↦ inr (
        m,
        rw hit found,
        record {
          before = k ∷ longest.before;
          after = longest.after;
          place = ap (◌∷◌ k) longest.place;
          match = longest.match;
          longer = (λ _. above, longest.longer);
          longest = longest.longest;
        },
      )
    ]
    | inr miss ↦ elim (find_from-none mounts) [
      | inl (kept, none_) ↦ inl (rw miss kept, (miss, none_))
      | inr (m, found, longest) ↦ inr (
        m,
        rw miss found,
        record {
          before = k ∷ longest.before;
          after = longest.after;
          place = ap (◌∷◌ k) longest.place;
          match = longest.match;
          longer = (λ h. absurd (ground arith), longest.longer);
          longest = longest.longest;
        },
      )
    ]
  ]

-- The search returns none exactly where no mount point is a prefix of the path by components, and
-- otherwise the first of the matching mounts with the longest mount point.
pub find_mount_for_path_lem :
    (path : Bytes) (mounts : List MountInfo)
    → ((find_mount_for_path path mounts ≡ none)
        × All (λ k. matches (normalize_path path) k ≡ false) mounts)
      ⊎ ((m : MountInfo) × (find_mount_for_path path mounts ≡ some m)
          × IsLongest (normalize_path path) m mounts)
unfolding find_mount_for_path
find_mount_for_path_lem path mounts = find_from-none (normalize_path path) mounts

-- A path matches a mount point exactly when the mount point is the root, is the path, or is
-- followed in the path by a separator: `/home` does not match `/homework`.
pub path_matches_mount_iff :
    (path point : Bytes)
    → (path_matches_mount path point ≡ true) ↔ (
        (point ≡ path_separator)
        ⊎ (path ≡ point)
        ⊎ ((rest : Bytes) × (path ≡ (point ++ path_separator) ++ rest)))
unfolding path_matches_mount
path_matches_mount_iff path point = (
  λ h. elim (Bool-cases (bytes_eq point path_separator)) [
    | inl root ↦ inl ((bytes_eq_iff point path_separator).0 root)
    | inr not_root ↦ elim (Bool-cases (bytes_eq path point)) [
      | inl same ↦ inr (inl ((bytes_eq_iff path point).0 same))
      | inr other ↦ inr (inr (starts_with-split path (point ++ path_separator) (ground arith)))
    ]
  ],
  λ h. elim h [
    | inl root ↦ ground (arith, bytes_eq_iff point path_separator)
    | inr (inl same) ↦ ground (arith, bytes_eq_iff path point)
    | inr (inr (rest, e)) ↦
        let prefix = starts_with-append (point ++ path_separator) rest in
        ground (arith, ap (λ b. starts_with b (point ++ path_separator)) e)
  ],
)
