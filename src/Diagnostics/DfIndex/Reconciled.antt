-- ===== src/Diagnostics/DfIndex/Reconciled.antt =====
-- diagnostics/df_index.py: what one section says of its storage domain.
use watchdirs.Prelude.{
  ℕ, zero, suc, ◌+◌, ◌*◌, ◌≡◌, ◌≤◌, ◌<◌, ◌↔◌, ◌⊎◌, inl, inr, refl, String, Bool, true, false, ◌&&◌,
  ◌||◌, not, Option, none, some, List, [], ◌∷◌, ◌++◌, any, arith, ltb, Bool-cases,
}
use watchdirs.Prelude.Bytes.{Bytes}
use watchdirs.Prelude.Int.{ℤ, pos, negsuc, minus, ◌-ℤ◌, pos_part}
use watchdirs.Filesystems.Usage.{StatVfs}
use watchdirs.Diagnostics.DfIndex.Rows.{
  Ratio, skipped_or_partial_scan_evidence, docker_or_containerd_storage,
  reserved_or_metadata_accounting, IndexedStorageDomainTotal, LikelyReason, DfIndexSection,
  DfWarning, deleted_open_file_suspected,
}
use watchdirs.Diagnostics.DfIndex.Mismatch.{
  is_overlay_mount_accounting_alias, probe_path, mismatch_min_bytes, classify_mismatch, is_material,
  material_reasons, when, max_snapshot_age_seconds,
}
use watchdirs.Diagnostics.DfIndex.{
  Providers, section_at, build_section, scope_extends_of, is_partial, has_skipped, ratio_of,
  unattributed_of, over_indexed_of,
}

abbrev is_suspicion : LikelyReason → Bool
is_suspicion deleted_open_file_suspected = true
is_suspicion _ = false

-- the section suspects files that are deleted and still open
abbrev pub suspects_deleted_open : DfIndexSection → Bool
suspects_deleted_open s = any is_suspicion s.likely_reasons

-- at least 1 GiB, and at least a twentieth of what is used
abbrev pub IsMaterial : ℕ → ℤ → Type 0
IsMaterial unattributed used =
    (mismatch_min_bytes ≤ unattributed) × (0 < pos_part used) × (pos_part used ≤ unattributed * 20)

-- the index has seen all of the domain
pub record IsCovered (p : Providers) (domain : IndexedStorageDomainTotal) : Type 0 where
  pub scope : scope_extends_of p.scope domain ≡ false
  pub complete : domain.partial_snapshot_count ≡ 0
  pub unskipped : domain.skipped_paths ≡ []

-- A section of a domain whose file system answers.
pub record IsReconciled (p : Providers) (domain : IndexedStorageDomainTotal) (st : StatVfs)
    (s : DfIndexSection) : Type 0 where
  pub used : ℤ
  pub unattributed : ℕ
  pub over_indexed : ℕ
  pub usage : used ≡ minus (st.f_blocks * st.f_frsize) (st.f_bfree * st.f_frsize)
  pub stored :
      (s.df_used_bytes ≡ some used)
      × (s.unattributed_bytes ≡ some unattributed)
      × (s.over_indexed_bytes ≡ some over_indexed)
  pub exclusive : (unattributed ≡ 0) ⊎ (over_indexed ≡ 0)
  pub balance :
      is_overlay_mount_accounting_alias domain ≡ false
      → used -ℤ pos domain.indexed_visible_disk_bytes ≡ minus unattributed over_indexed
  pub alias : is_overlay_mount_accounting_alias domain ≡ true → unattributed + over_indexed ≡ 0
  pub suspicion :
      (suspects_deleted_open s ≡ true) ↔ (IsMaterial unattributed used × IsCovered p domain)

balance_of :
    (used : ℤ) (n : ℕ) → used -ℤ pos n ≡ minus (pos_part (used -ℤ pos n)) (pos_part (pos n -ℤ used))
unfolding ◌-ℤ◌
balance_of used n = ground arith

exclusive_of : (used : ℤ) (n : ℕ) → (pos_part (used -ℤ pos n) ≡ 0) ⊎ (pos_part (pos n -ℤ used) ≡ 0)
unfolding ◌-ℤ◌
exclusive_of (pos m) n = elim (Bool-cases (ltb m n)) [
  | inl e ↦ inl (ground arith)
  | inr e ↦ inr (ground arith)
]
exclusive_of (negsuc m) n = inl (ground arith)

no_suspicion_when :
    (b : Bool)
    → any is_suspicion (
        when b skipped_or_partial_scan_evidence
        ++ (docker_or_containerd_storage ∷ reserved_or_metadata_accounting ∷ []))
      ≡ false
no_suspicion_when true = refl
no_suspicion_when false = refl

material_reasons-suspicion :
    (scope partial : Bool) (n : ℕ)
    → any is_suspicion (material_reasons scope partial n) ≡ (not scope && not partial)
material_reasons-suspicion false false n = refl
material_reasons-suspicion true false n = no_suspicion_when (ltb 0 n && not false)
material_reasons-suspicion false true n = no_suspicion_when (ltb 0 n && not true)
material_reasons-suspicion true true n = no_suspicion_when (ltb 0 n && not true)

classify_mismatch-suspicion :
    (u : ℕ) (r : Option Ratio) (scope partial : Bool) (n : ℕ)
    → any is_suspicion (classify_mismatch u r scope partial n).0
      ≡ (is_material u r && (not scope && not partial))
unfolding classify_mismatch
classify_mismatch-suspicion u r scope partial n = elim (Bool-cases (is_material u r)) [
  | inl e ↦ rw e (material_reasons-suspicion scope partial n)
  | inr e ↦ rw e refl
]

is_material_iff :
    (u : ℕ) (used : ℤ) → (is_material u (ratio_of u (pos_part used)) ≡ true) ↔ IsMaterial u used
is_material_iff u (pos zero) = ground arith
is_material_iff u (pos (suc n)) = ground arith
is_material_iff u (negsuc n) = ground arith

partial_iff :
    (domain : IndexedStorageDomainTotal)
    → ((is_partial domain || has_skipped domain) ≡ false)
      ↔ ((domain.partial_snapshot_count ≡ 0) × (domain.skipped_paths ≡ []))
partial_iff domain = ground arith

suspicion_of :
    (p : Providers) (domain : IndexedStorageDomainTotal) (unattributed : ℕ) (used : ℤ)
    → (any is_suspicion
          (classify_mismatch unattributed
            (ratio_of unattributed (pos_part used))
            (scope_extends_of p.scope domain)
            (is_partial domain || has_skipped domain)
            domain.unknown_mount_count).0
        ≡ true)
      ↔ (IsMaterial unattributed used × IsCovered p domain)
suspicion_of p domain unattributed used =
    let reasons =
      classify_mismatch-suspicion unattributed (ratio_of unattributed (pos_part used))
        (scope_extends_of p.scope domain) (is_partial domain || has_skipped domain)
        domain.unknown_mount_count in
    let material = is_material_iff unattributed used in
    let partial = partial_iff domain in
    rw reasons (
      λ h. (
        material.0 (ground arith),
        record {
          scope = ground arith;
          complete = (partial.0 (ground arith)).0;
          unskipped = (partial.0 (ground arith)).1;
        },
      ),
      λ h. ground (arith, material.1 h.0, h.1.scope, partial.1 (h.1.complete, h.1.unskipped)),
    )

-- A section of a domain whose file system raises an error: nothing is said of its usage.
pub record IsUnavailable (s : DfIndexSection) : Type 0 where
  pub unavailable : s.filesystem_stat_available ≡ false
  pub no_usage : s.df_used_bytes ≡ none
  pub no_difference : (s.unattributed_bytes ≡ none) × (s.over_indexed_bytes ≡ none)
  pub no_reason : s.likely_reasons ≡ []

abbrev pub IsSection :
    Providers → IndexedStorageDomainTotal → String ⊎ StatVfs → DfIndexSection → Type 0
IsSection p domain (inl error) s = IsUnavailable s
IsSection p domain (inr st) s = (s.filesystem_stat_available ≡ true) × IsReconciled p domain st s

section_at-IsSection :
    (p : Providers) (domain : IndexedStorageDomainTotal) (age : Option ℕ) (path : Bytes)
    (answer : String ⊎ StatVfs)
    → IsSection p domain answer
        (section_at domain age (scope_extends_of p.scope domain) path answer).0
unfolding section_at
section_at-IsSection p domain age path (inl error) = record {
  unavailable = refl;
  no_usage = refl;
  no_difference = (refl, refl);
  no_reason = refl;
}
section_at-IsSection p domain age path (inr st) =
    let used = minus (st.f_blocks * st.f_frsize) (st.f_bfree * st.f_frsize) in
    let n = domain.indexed_visible_disk_bytes in
    (
      refl,
      record {
        used = used;
        unattributed = unattributed_of domain used;
        over_indexed = over_indexed_of domain used;
        usage = refl;
        stored = (refl, refl, refl);
        exclusive = elim (Bool-cases (is_overlay_mount_accounting_alias domain)) [
          | inl e ↦ rw e (inl refl)
          | inr e ↦ rw e (exclusive_of used n)
        ];
        balance = λ e. rw e (balance_of used n);
        alias = λ e. rw e refl;
        suspicion = suspicion_of p domain (unattributed_of domain used) used;
      },
    )

-- The section of a domain with a path to probe is made from what `os.statvfs` answers there, and is
-- right about it. Where it raises, the section says nothing of the usage. Where it answers, the used
-- bytes are those of the blocks that are not free; what is unattributed and what is over-indexed
-- are never both positive, and their difference is the used bytes less the indexed ones, or both
-- are 0 for an overlay alias; and files that are deleted and still open are suspected exactly if
-- the unattributed bytes are at least 1 GiB and a twentieth of the used ones, the indexed roots
-- cover the file system, no snapshot is partial and no path was skipped.
pub build_section-IsSection :
    (p : Providers) (domain : IndexedStorageDomainTotal) (path : Bytes)
    → probe_path domain ≡ some path
    → (r : DfIndexSection × List DfWarning) × (build_section p domain ≡ some r)
      × IsSection p domain (p.statvfs path) r.0
unfolding build_section
build_section-IsSection p domain path h = (
  section_at domain (max_snapshot_age_seconds domain p.generated_at)
      (scope_extends_of p.scope domain) path (p.statvfs path),
  rw h refl,
  section_at-IsSection p domain (max_snapshot_age_seconds domain p.generated_at) path
      (p.statvfs path),
)
