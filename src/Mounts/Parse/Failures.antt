-- ===== src/Mounts/Parse/Failures.antt =====
-- collect/mounts.py: what `parse_mountinfo` returns or raises, on any input.
use mathlib.Core.Path.{ap₂}
use watchdirs.Prelude.{
  if◌then◌else◌, ◌≤◌, ◌<◌, length, ◌≡◌, refl, ap, Option, none, some, List, [], ◌∷◌, ◌++◌, arith,
  map, filter, ◌⊎◌, inl, inr, All,
}
use watchdirs.Prelude.Bytes.{Bytes}
use watchdirs.Prelude.Text.{is_space, strip, int_of}
use watchdirs.Prelude.Int.{ℤ}
use watchdirs.Mounts.Unescape.{Unescaped, ok, value_error, unescape_mount_path}
use watchdirs.Mounts.Parse.Separator.{IsFirst, LacksSeparator, IsPartition, partition-IsPartition}
use watchdirs.Mounts.Parse.{
  row_of, row_from, make_row, words, partition, missing_separator, too_few_fields, bad_value,
  MountRow, MountError, Parsed, parsed, raised, is_filled, parse_line, prepend_row, parse_stripped,
  parse_lines, split_lines, parse_mountinfo,
}

-- the lines that the loop does not skip
abbrev pub stripped_lines : Bytes → List Bytes
stripped_lines raw = filter is_filled (map (strip is_space) (split_lines raw))

-- a line with its separator and enough fields on both sides
abbrev pub HasFields : Bytes → Type 0
HasFields line =
    (left : Bytes) × (right : Bytes) × IsFirst line (left, right)
    × (6 ≤ length (words left))
    × (3 ≤ length (words right))

-- what an error says of its line
abbrev pub IsFault : Bytes → MountError → Type 0
IsFault line (missing_separator l) = (l ≡ line) × LacksSeparator line
IsFault line (too_few_fields l) =
    (l ≡ line)
    × ((left : Bytes) × (right : Bytes) × IsFirst line (left, right)
        × ((length (words left) < 6) ⊎ (length (words right) < 3)))
IsFault line bad_value = HasFields line

abbrev pub IsLine : Bytes → Parsed MountRow → Type 0
IsLine line (parsed row) = HasFields line
IsLine line (raised e) = IsFault line e

-- every line is parsed, in order
abbrev pub AreParsed : List Bytes → List MountRow → Type 0
AreParsed ls rows = (map parse_line ls ≡ map parsed rows) × All HasFields ls

-- the first line that raises is behind lines that are all parsed
abbrev pub Fails : List Bytes → MountError → Type 0
Fails ls e =
    (before : List Bytes) × (rows : List MountRow) × (line : Bytes) × (after : List Bytes) × (ls
      ≡ before ++ (line ∷ after))
    × AreParsed before rows
    × (parse_line line ≡ raised e)
    × IsFault line e

abbrev pub IsOutcome : List Bytes → Parsed (List MountRow) → Type 0
IsOutcome ls (parsed rows) = AreParsed ls rows
IsOutcome ls (raised e) = Fails ls e

make_row-IsLine :
    (line : Bytes) (id parent : Option ℤ) (device : Bytes) (root point : Unescaped)
    (options kind source super : Bytes)
    → HasFields line
    → IsLine line (make_row id parent device root point options kind source super)
make_row-IsLine line (some i) (some p) device (ok r) (ok m) options kind source super h = h
make_row-IsLine line (some i) (some p) device (ok r) value_error options kind source super h = h
make_row-IsLine line (some i) (some p) device value_error point options kind source super h = h
make_row-IsLine line (some i) none device root point options kind source super h = h
make_row-IsLine line none parent device root point options kind source super h = h

module _ (line left right : Bytes) (first : IsFirst line (left, right)) where
  few_left :
      (ws : List Bytes) → words left ≡ ws → length ws < 6 → IsFault line (too_few_fields line)
  few_left ws e h =
      let few : length (words left) < 6 = ground (arith, ap (length {A = Bytes}) e, h) in
      (refl, (left, right, first, inl few))

  few_right :
      (vs : List Bytes) → words right ≡ vs → length vs < 3 → IsFault line (too_few_fields line)
  few_right vs e h =
      let few : length (words right) < 3 = ground (arith, ap (length {A = Bytes}) e, h) in
      (refl, (left, right, first, inr few))

  row_of-IsLine :
      (ws vs : List Bytes) → words left ≡ ws → words right ≡ vs → IsLine line (row_of line ws vs)
  unfolding row_of
  row_of-IsLine [] vs e f = few_left [] e (omega arith)
  row_of-IsLine (a ∷ []) vs e f = few_left (a ∷ []) e (omega arith)
  row_of-IsLine (a ∷ b ∷ []) vs e f = few_left (a ∷ b ∷ []) e (omega arith)
  row_of-IsLine (a ∷ b ∷ c ∷ []) vs e f = few_left (a ∷ b ∷ c ∷ []) e (omega arith)
  row_of-IsLine (a ∷ b ∷ c ∷ d ∷ []) vs e f = few_left (a ∷ b ∷ c ∷ d ∷ []) e (omega arith)
  row_of-IsLine (a ∷ b ∷ c ∷ d ∷ g ∷ []) vs e f = few_left (a ∷ b ∷ c ∷ d ∷ g ∷ []) e (omega arith)
  row_of-IsLine (a ∷ b ∷ c ∷ d ∷ g ∷ h ∷ ws) [] e f = few_right [] f (omega arith)
  row_of-IsLine (a ∷ b ∷ c ∷ d ∷ g ∷ h ∷ ws) (k ∷ []) e f = few_right (k ∷ []) f (omega arith)
  row_of-IsLine (a ∷ b ∷ c ∷ d ∷ g ∷ h ∷ ws) (k ∷ s ∷ []) e f =
      few_right (k ∷ s ∷ []) f (omega arith)
  row_of-IsLine (a ∷ b ∷ c ∷ d ∷ g ∷ h ∷ ws) (k ∷ s ∷ p ∷ vs) e f =
      let enough_left : 6 ≤ length (words left) = ground (arith, ap (length {A = Bytes}) e) in
      let enough_right : 3 ≤ length (words right) = ground (arith, ap (length {A = Bytes}) f) in
      make_row-IsLine line (int_of a) (int_of b) c (unescape_mount_path d) (unescape_mount_path g) h
        k s p (left, right, first, enough_left, enough_right)

row_from-IsLine :
    (line : Bytes) (o : Option (Bytes × Bytes)) → IsPartition line o → IsLine line (row_from line o)
row_from-IsLine line none h = (refl, h)
row_from-IsLine line (some (left, right)) h =
    row_of-IsLine line left right h (words left) (words right) refl refl

parse_line-IsLine : (line : Bytes) → IsLine line (parse_line line)
parse_line-IsLine line = row_from-IsLine line (partition line) (partition-IsPartition line)

prepend-IsOutcome :
    (line : Bytes) (ls : List Bytes) (row : Parsed MountRow) (rest : Parsed (List MountRow))
    → parse_line line ≡ row
    → IsLine line row
    → IsOutcome ls rest
    → IsOutcome (line ∷ ls) (prepend_row row rest)
prepend-IsOutcome line ls (raised e) rest h fault k = ([], [], line, ls, refl, (refl, tt), h, fault)
prepend-IsOutcome line ls (parsed row) (parsed rows) h fields k = (ap₂ ◌∷◌ h k.0, (fields, k.1))
prepend-IsOutcome line ls (parsed row) (raised e) h fields
      (before, rows, bad, after, split, read, k, fault) =
    (
      line ∷ before,
      row ∷ rows,
      bad,
      after,
      ap (λ r. line ∷ r) split,
      (ap₂ ◌∷◌ h read.0, (fields, read.1)),
      k,
      fault,
    )

stripped-IsOutcome :
    (l : Bytes) (ls : List Bytes) (rest : Parsed (List MountRow))
    → IsOutcome ls rest
    → IsOutcome (if is_filled l then l ∷ ls else ls) (parse_stripped l rest)
stripped-IsOutcome [] ls rest h = h
stripped-IsOutcome (c ∷ l) ls rest h =
    prepend-IsOutcome (c ∷ l) ls (parse_line (c ∷ l)) rest refl (parse_line-IsLine (c ∷ l)) h

lines-IsOutcome :
    (ls : List Bytes) → IsOutcome (filter is_filled (map (strip is_space) ls)) (parse_lines ls)
unfolding parse_lines
lines-IsOutcome [] = (refl, tt)
lines-IsOutcome (l ∷ ls) =
    stripped-IsOutcome (strip is_space l) (filter is_filled (map (strip is_space) ls))
      (parse_lines ls) (lines-IsOutcome ls)

-- On any input, `parse_mountinfo` either returns one row for each line that is not blank, in order,
-- each of which has its separator and enough fields; or it raises the error of the first line that
-- fails, behind lines that are all parsed. The error tells what is wrong: the line has no separator,
-- or a side of its first separator has too few fields; a bad value is raised only where the fields
-- are there.
pub parse_mountinfo-IsOutcome : (raw : Bytes) → IsOutcome (stripped_lines raw) (parse_mountinfo raw)
unfolding parse_mountinfo
parse_mountinfo-IsOutcome raw = lines-IsOutcome (split_lines raw)
