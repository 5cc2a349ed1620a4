-- ===== src/Diagnostics/DeletedOpen/Held.antt =====
-- diagnostics/deleted_open.py: the rows of /proc are the deleted files that a process holds open.
use watchdirs.Prelude.{
  ◌≡◌, ◌↔◌, inl, inr, refl, sym, ap, ◌∙◌, Bool, true, false, List, [], ◌∷◌, ◌++◌, arith, sorted,
  Member, Bool-cases, subst,
}
use watchdirs.Prelude.Bytes.{Bytes, bytes_eq, bytes_eq_iff, bytes_eq_refl}
use watchdirs.Prelude.Int.{ℤ, pos}
use watchdirs.Prelude.Text.{ends_with, remove_suffix, remove_suffix-append}
use watchdirs.Prelude.Members.{Member-append, append-Member, Member-sorted, sorted-Member}
use watchdirs.Diagnostics.Rows.{DeletedOpenFile}
use watchdirs.Diagnostics.Lsof.{deleted_marker}
use watchdirs.Diagnostics.DeletedOpen.Sources.{
  Link, target, unreadable, FdEntry, FdListing, listed, not_listed, ProcEntry, is_pid, digits_value,
  read_proc_comm, proc_lt, fd_lt, procfs_row, link_found, fds_found, listing_found, process_found,
  processes_found,
}

ends_with-split : (b s : Bytes) → ends_with b s ≡ true → (p : Bytes) × (b ≡ p ++ s)
unfolding ends_with
ends_with-split [] s h = ([], (bytes_eq_iff [] s).0 h)
ends_with-split (c ∷ b) s h = elim (Bool-cases (bytes_eq (c ∷ b) s)) [
  | inl same ↦ ([], (bytes_eq_iff (c ∷ b) s).0 same)
  | inr other ↦
      let (p, e) = ends_with-split b s (ground (arith, h, other)) in (c ∷ p, ap (λ x. c ∷ x) e)
]

ends_with-append : (p s : Bytes) → ends_with (p ++ s) s ≡ true
unfolding ends_with
ends_with-append [] [] = bytes_eq_refl []
ends_with-append [] (c ∷ s) = rw (bytes_eq_refl (c ∷ s)) refl
ends_with-append (c ∷ p) s = ground (arith, ends_with-append p s)

-- the link leads to a deleted file, and the row names it
abbrev pub IsDeletedLink : ℤ → Bytes → Bytes → Link → DeletedOpenFile → Type 0
IsDeletedLink pid command fd l row =
    (path : Bytes) × (l ≡ target (path ++ deleted_marker)) × (row ≡ procfs_row pid command fd path)

abbrev pub IsHeldBy : ℤ → Bytes → List FdEntry → DeletedOpenFile → Type 0
IsHeldBy pid command fds row =
    (d : FdEntry) × Member d fds × IsDeletedLink pid command d.name d.link row

-- the row is a descriptor of the process that an entry of /proc stands for
abbrev pub IsHeldIn : DeletedOpenFile → ProcEntry → Type 0
IsHeldIn row e =
    (is_pid e.name ≡ true)
    × ((fds : List FdEntry) × (e.fds ≡ listed fds)
        × IsHeldBy (pos (digits_value 0 e.name)) (read_proc_comm e.comm) fds row)

-- The row is a descriptor of a process, both listed below /proc, whose link leads to a deleted file.
abbrev pub IsHeld : List ProcEntry → DeletedOpenFile → Type 0
IsHeld es row = (e : ProcEntry) × Member e es × IsHeldIn row e

link_text : Link → Bytes
link_text (target t) = t
link_text (unreadable e) = []

is_target : Link → Bool
is_target (target t) = true
is_target (unreadable e) = false

listing_rows : FdListing → List FdEntry
listing_rows (listed fds) = fds
listing_rows (not_listed e) = []

is_listed : FdListing → Bool
is_listed (listed fds) = true
is_listed (not_listed e) = false

module _ (row : DeletedOpenFile) where
  link_iff :
      (pid : ℤ) (command fd : Bytes) (l : Link)
      → Member row (link_found pid command fd l).rows ↔ IsDeletedLink pid command fd l row
  unfolding link_found link_text is_target
  link_iff pid command fd (unreadable e) =
      (λ h. elim h [ ], λ (path, h, k). absurd (ground (arith, ap is_target h)))
  link_iff pid command fd (target t) = elim (Bool-cases (ends_with t deleted_marker)) [
    | inl deleted ↦
        let (p, e) = ends_with-split t deleted_marker deleted in
        let path : remove_suffix t deleted_marker ≡ p =
          ap (λ x. remove_suffix x deleted_marker) e ∙ remove_suffix-append p deleted_marker in
        rw (deleted, path)
          (
            (λ h. elim h [ inl same ↦ (p, ap target e, same) | inr no_ ↦ elim no_ [ ] ]),
            (λ (q, h, same).
                let other : q ≡ p =
                  sym (remove_suffix-append q deleted_marker)
                  ∙ ap (λ x. remove_suffix x deleted_marker) (sym (ap link_text h))
                  ∙ path in
                inl (same ∙ ap (procfs_row pid command fd) other)),
          )
    | inr kept ↦ rw kept (
      (λ h. elim h [ ]),
      (λ (q, h, same).
          let text = ap (λ x. ends_with x deleted_marker) (ap link_text h) in
          let ends = ends_with-append q deleted_marker in
          absurd (ground (arith, kept, text, ends))),
    )
  ]

  fds_iff :
      (pid : ℤ) (command : Bytes) (fds : List FdEntry)
      → Member row (fds_found pid command fds).rows ↔ IsHeldBy pid command fds row
  unfolding fds_found
  fds_iff pid command [] = (λ h. elim h [ ], λ h. elim (h.1) [ ])
  fds_iff pid command (d ∷ fds) =
      let here = link_iff pid command d.name d.link in
      let there = fds_iff pid command fds in
      let first = (link_found pid command d.name d.link).rows in
      let more = (fds_found pid command fds).rows in
      (
        λ h. elim (Member-append row first more h) [
          | inl f ↦ (d, inl refl, here.0 f)
          | inr m ↦ let k = there.0 m in (k.0, inr (k.1), k.2)
        ],
        λ (e, place, k). elim place [
          | inl same ↦
              append-Member row first more
                (inl (here.1 (subst (λ x. IsDeletedLink pid command x.name x.link row) same k)))
          | inr later ↦ append-Member row first more (inr (there.1 (e, later, k)))
        ],
      )

  sorted_fds_iff :
      (pid : ℤ) (command : Bytes) (fds : List FdEntry)
      → Member row (fds_found pid command (sorted fd_lt fds)).rows ↔ IsHeldBy pid command fds row
  sorted_fds_iff pid command fds =
      let k = fds_iff pid command (sorted fd_lt fds) in
      (
        λ h. let m = k.0 h in (m.0, sorted-Member fd_lt m.0 fds m.1, m.2),
        λ m. k.1 (m.0, Member-sorted fd_lt m.0 fds m.1, m.2),
      )

  listing_iff :
      (pid : ℤ) (command : Bytes) (l : FdListing)
      → Member row (listing_found pid command l).rows
        ↔ ((fds : List FdEntry) × (l ≡ listed fds) × IsHeldBy pid command fds row)
  unfolding listing_rows is_listed
  listing_iff pid command (not_listed e) =
      (λ h. elim h [ ], λ (fds, h, k). absurd (ground (arith, ap is_listed h)))
  listing_iff pid command (listed fds) = (
    λ h. (fds, refl, (sorted_fds_iff pid command fds).0 h),
    λ (other, same, k).
        (sorted_fds_iff pid command fds).1
          (subst (λ x. IsHeldBy pid command x row) (sym (ap listing_rows same)) k),
  )

  process_iff : (e : ProcEntry) → Member row (process_found e).rows ↔ IsHeldIn row e
  unfolding process_found
  process_iff e =
      let k = listing_iff (pos (digits_value 0 e.name)) (read_proc_comm e.comm) e.fds in
      elim (Bool-cases (is_pid e.name)) [
        | inl yes_ ↦ rw yes_ ((λ h. (refl, k.0 h)), (λ h. k.1 (h.1)))
        | inr no_ ↦ rw no_ ((λ h. elim h [ ]), (λ h. absurd (ground (arith, h.0))))
      ]

  processes_iff : (es : List ProcEntry) → Member row (processes_found es).rows ↔ IsHeld es row
  unfolding processes_found
  processes_iff [] = (λ h. elim h [ ], λ h. elim (h.1) [ ])
  processes_iff (e ∷ es) =
      let here = process_iff e in
      let there = processes_iff es in
      let first = (process_found e).rows in
      let more = (processes_found es).rows in
      (
        λ h. elim (Member-append row first more h) [
          | inl f ↦ (e, inl refl, here.0 f)
          | inr m ↦ let k = there.0 m in (k.0, inr (k.1), k.2)
        ],
        λ (d, place, k). elim place [
          | inl same ↦ append-Member row first more (inl (here.1 (subst (IsHeldIn row) same k)))
          | inr later ↦ append-Member row first more (inr (there.1 (d, later, k)))
        ],
      )

  pub sorted_processes_iff :
      (es : List ProcEntry) → Member row (processes_found (sorted proc_lt es)).rows ↔ IsHeld es row
  sorted_processes_iff es =
      let k = processes_iff (sorted proc_lt es) in
      (
        λ h. let m = k.0 h in (m.0, sorted-Member proc_lt m.0 es m.1, m.2),
        λ m. k.1 (m.0, Member-sorted proc_lt m.0 es m.1, m.2),
      )
