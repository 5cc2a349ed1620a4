-- ===== src/Diagnostics/DfIndex/Index.antt =====
-- diagnostics/df_index.py: the sections of all domains, in their order.
use mathlib.Core.List.{Permᴰ}
use watchdirs.Prelude.Permuted.{sorted-Perm}
use watchdirs.Prelude.{
  Empty, ℕ, ◌+◌, ◌≡◌, ◌≤◌, ◌<◌, ◌↔◌, refl, ap, ◌∙◌, Bool, true, false, some, List, [], ◌∷◌, ◌++◌,
  arith, length, sorted, All,
}
use watchdirs.Prelude.Bytes.{Bytes, bytes_lt_asym, bytes_lt_trans}
use watchdirs.Prelude.Cut.{rest_after, take-rest, length-take, take_bounds}
use watchdirs.Prelude.Sorting.{IsSorted, sorted-IsSorted, length-sorted}
use watchdirs.Prelude.Stable.{then_by, sorted_stable}
use watchdirs.Prelude.Strings.{codes}
use watchdirs.Diagnostics.DfIndex.Rows.{
  IndexedStorageDomainTotal, DfIndexSection, DfWarning, DfIndexDiagnostic,
}
use watchdirs.Diagnostics.DfIndex.Mismatch.{probe_path}
use watchdirs.Diagnostics.DfIndex.{
  Providers, section_by, index_of, build_section, build_sections, key_lt, more_actionable,
  build_df_index_diagnostic,
}

abbrev pub HasProbe : IndexedStorageDomainTotal → Type 0
HasProbe domain = (path : Bytes) × (probe_path domain ≡ some path)

-- the section and the warnings of each domain, one after the other
abbrev pub AreSections :
    Providers → List IndexedStorageDomainTotal → List DfIndexSection → List DfWarning → Type 0
AreSections p [] [] warnings = warnings ≡ []
AreSections p [] (s ∷ ss) warnings = Empty
AreSections p (domain ∷ domains) [] warnings = Empty
AreSections p (domain ∷ domains) (s ∷ ss) warnings =
    (first : List DfWarning) × (rest : List DfWarning) × (build_section p domain ≡ some (s, first))
    × (warnings ≡ first ++ rest)
    × AreSections p domains ss rest

-- A section goes before another if its file system answered and that of the other did not, or else
-- if more is unattributed; ties go by the key of the domain.
abbrev pub section_before : DfIndexSection → DfIndexSection → Bool
section_before = then_by more_actionable key_lt

-- `hidden` are the sections that the limit leaves out.
pub record IsIndex (p : Providers) (limit : ℕ) (domains : List IndexedStorageDomainTotal)
    (d : DfIndexDiagnostic) (hidden : List DfIndexSection) : Type 0 where
  pub ordered : IsSorted section_before (d.filesystems ++ hidden)
  pub counts :
      (d.total_filesystem_count ≡ length domains)
      × (length d.filesystems + length hidden ≡ length domains)
      × (length d.filesystems ≤ limit)
  pub truncated_iff : (d.truncated ≡ true) ↔ (0 < length hidden)
  -- the shown and the hidden ones are, reordered, the sections of the domains, one for each
  pub sections :
      (built : List DfIndexSection) × AreSections p domains built d.warnings
      × Permᴰ (d.filesystems ++ hidden) built

record AreBuilt (p : Providers) (domains : List IndexedStorageDomainTotal) : Type 0 where
  sections : List DfIndexSection
  warnings : List DfWarning
  built : build_sections p domains ≡ some (sections, warnings)
  number : length sections ≡ length domains
  each : AreSections p domains sections warnings

built_section :
    (p : Providers) (domain : IndexedStorageDomainTotal)
    → HasProbe domain
    → (s : DfIndexSection) × ((ws : List DfWarning) × (build_section p domain ≡ some (s, ws)))
unfolding build_section
built_section p domain (path, e) = (_, (_, ap (section_by p domain) e))

build_sections-AreBuilt :
    (p : Providers) (domains : List IndexedStorageDomainTotal)
    → All HasProbe domains
    → AreBuilt p domains
unfolding build_sections
build_sections-AreBuilt p [] h = record {
  sections = [];
  warnings = [];
  built = refl;
  number = refl;
  each = refl;
}
build_sections-AreBuilt p (domain ∷ domains) h =
    let first = built_section p domain h.0 in
    let rest = build_sections-AreBuilt p domains h.1 in
    record {
      sections = first.0 ∷ rest.sections;
      warnings = first.1.0 ++ rest.warnings;
      built = rw (first.1.1, rest.built) refl;
      number = omega (arith, rest.number);
      each = (first.1.0, rest.warnings, first.1.1, refl, rest.each);
    }

more_actionable_asym :
    (a b : DfIndexSection) → more_actionable a b ≡ true → more_actionable b a ≡ false
more_actionable_asym a b h = ground arith

more_actionable_trans :
    (a b c : DfIndexSection)
    → more_actionable b a ≡ false
    → more_actionable c b ≡ false
    → more_actionable c a ≡ false
more_actionable_trans a b c h k = ground arith

by_key : (xs : List DfIndexSection) → IsSorted key_lt (sorted key_lt xs)
by_key xs =
    sorted-IsSorted key_lt
      (λ a b. bytes_lt_asym (codes a.storage_domain.key) (codes b.storage_domain.key))
      (λ a b c.
        bytes_lt_trans (codes a.storage_domain.key) (codes b.storage_domain.key)
          (codes c.storage_domain.key))
      xs

-- If each domain has a path to probe, the index has exactly one section for each domain, made from
-- what the system answers about that domain alone, and their warnings: the shown ones, at most `limit`, and then the hidden
-- ones, in the order of `section_before`; and it is truncated exactly when some are hidden.
pub build_df_index_diagnostic-IsIndex :
    (p : Providers) (limit : ℕ) (domains : List IndexedStorageDomainTotal)
    → All HasProbe domains
    → (d : DfIndexDiagnostic) × (build_df_index_diagnostic p limit domains ≡ some d)
      × ((hidden : List DfIndexSection) × IsIndex p limit domains d hidden)
unfolding build_df_index_diagnostic
build_df_index_diagnostic-IsIndex p limit domains h =
    let b = build_sections-AreBuilt p domains h in
    let keyed = sorted key_lt b.sections in
    let ordered = sorted more_actionable keyed in
    let bounds = take_bounds limit ordered in
    let number : length ordered ≡ length domains =
      length-sorted more_actionable keyed ∙ length-sorted key_lt b.sections ∙ b.number in
    (
      _,
      ap (index_of limit) b.built,
      (
        rest_after limit ordered,
        record {
          ordered = rw (take-rest limit ordered) (
              sorted_stable more_actionable key_lt more_actionable_asym more_actionable_trans keyed
                (by_key b.sections));
          counts = (number, length-take limit ordered ∙ number, bounds.0);
          truncated_iff = bounds.1;
          sections = (
            b.sections,
            b.each,
            rw (take-rest limit ordered)
                (Permᴰ.trans (sorted-Perm more_actionable keyed) (sorted-Perm key_lt b.sections)),
          );
        },
      ),
    )
