-- ===== src/Tests/DfIndex.antt =====
-- The theorems about diagnostics/df_index.py at concrete domains.
use watchdirs.Prelude.{
  ℕ, String, ◌≡◌, refl, false, none, some, List, [], ◌∷◌, inl, inr, if◌then◌else◌,
}
use watchdirs.Prelude.Bytes.{Bytes, bytes_eq}
use watchdirs.Diagnostics.DfIndex.Rows.{
  IndexedStorageDomainTotal, DfIndexSection, DfWarning, DfIndexDiagnostic,
}
use watchdirs.Diagnostics.DfIndex.Mismatch.{probe_path}
use watchdirs.Diagnostics.DfIndex.{Providers, build_section, build_df_index_diagnostic}
use watchdirs.Diagnostics.DfIndex.Reconciled.{IsSection, build_section-IsSection}
use watchdirs.Diagnostics.DfIndex.Index.{IsIndex, build_df_index_diagnostic-IsIndex}

abbrev data_path : Bytes
data_path = b'/' ∷ b'd' ∷ []

abbrev lost_path : Bytes
lost_path = b'/' ∷ b'l' ∷ []

abbrev domain_at : String → Bytes → ℕ → IndexedStorageDomainTotal
domain_at key path bytes = record {
  storage_domain = record {
    kind = "storage-domain";
    key = key;
    mount_point = some path;
    filesystem_type = some "ext4";
    mount_source = some "/dev/sda1";
    major_minor = some "8:1";
    root = none;
  };
  indexed_visible_disk_bytes = bytes;
  indexed_visible_apparent_bytes = bytes;
  indexed_visible_path_count = 4;
  indexed_root_paths = path ∷ [];
  indexed_mount_points = path ∷ [];
  snapshot_ids = 3 ∷ [];
  snapshot_statuses = "complete" ∷ [];
  finished_at_min = none;
  finished_at_max = none;
  partial_snapshot_count = 0;
  unknown_mount_count = 0;
  negative_total_clamped = false;
  skipped_paths = [];
}

-- 8 GiB of which 6 GiB are free, and a mount that fails
abbrev host : Providers
host = record {
  statvfs = λ path.
      if bytes_eq path lost_path
      then inl "gone"
      else inr (record {
        f_frsize = 4096;
        f_bsize = 4096;
        f_blocks = 2097152;
        f_bfree = 1572864;
        f_bavail = 1500000;
      });
  generated_at = none;
  scope = none;
}

build_section-IsSection_example :
    (r : DfIndexSection × List DfWarning) × (build_section host (domain_at "a" data_path 1000)
      ≡ some r)
    × IsSection host (domain_at "a" data_path 1000) (host.statvfs data_path) r.0
unfolding probe_path
build_section-IsSection_example =
    build_section-IsSection host (domain_at "a" data_path 1000) data_path refl

abbrev two_domains : List IndexedStorageDomainTotal
two_domains = domain_at "b" lost_path 0 ∷ domain_at "a" data_path 1000 ∷ []

build_df_index_diagnostic-IsIndex_example :
    (d : DfIndexDiagnostic) × (build_df_index_diagnostic host 1 two_domains ≡ some d)
    × ((hidden : List DfIndexSection) × IsIndex host 1 two_domains d hidden)
unfolding probe_path
build_df_index_diagnostic-IsIndex_example =
    build_df_index_diagnostic-IsIndex host 1 two_domains
      ((lost_path, refl), ((data_path, refl), tt))
