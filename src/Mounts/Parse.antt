-- ===== src/Mounts/Parse.antt =====
-- `parse_mountinfo` of collect/mounts.py: the lines of /proc/self/mountinfo. Decoded texts are kept
-- as their bytes.
pub mod Words
pub mod Lines
pub mod RoundTrip
pub mod Separator
pub mod Failures
use watchdirs.Prelude.{
  ℕ, Bool, true, false, ◌&&◌, ◌||◌, not, Option, none, some, List, [], ◌∷◌, ◌++◌, ltb, ◌==◌,
  if◌then◌else◌, filter, length,
}
use watchdirs.Prelude.Bytes.{Bytes, starts_with}
use watchdirs.Prelude.Int.{ℤ}
use watchdirs.Prelude.Text.{is_space, strip, split_on, int_of}
use watchdirs.Mounts.Unescape.{Unescaped, ok, value_error, unescape_mount_path}

-- `MountInfo`, as it is parsed
pub record MountRow : Type 0 where
  pub mount_id : ℤ
  pub parent_id : ℤ
  pub major_minor : Bytes
  pub root : Bytes
  pub mount_point : Bytes
  pub options : List Bytes
  pub filesystem_type : Bytes
  pub mount_source : Bytes
  pub super_options : List Bytes

-- the messages of `ValueError`: the two of the function, and those of `int` and `bytearray.append`
pub data MountError : Type 0 where
  missing_separator too_few_fields : Bytes → MountError
  bad_value : MountError

pub data Parsed {ℓ} (A : Type ℓ) : Type ℓ where
  parsed : A → Parsed A
  raised : MountError → Parsed A

-- b" - "
abbrev pub field_separator : Bytes
field_separator = b' ' ∷ b'-' ∷ b' ' ∷ []

abbrev pub behind : Bytes → Option (Bytes × Bytes) → Option (Bytes × Bytes)
behind s none = none
behind s (some (left, right)) = some (s ++ left, right)

abbrev pub drop_three : Bytes → Bytes
drop_three (a ∷ b ∷ c ∷ rest) = rest
drop_three _ = []

-- `line.partition(b" - ")`; none where there is no separator
unfoldable pub partition : Bytes → Option (Bytes × Bytes)
partition [] = none
partition (c ∷ cs) =
    let rest = partition cs in
    if starts_with (c ∷ cs) field_separator
    then some ([], drop_three (c ∷ cs))
    else behind (c ∷ []) rest

abbrev pub push_front : ℕ → List Bytes → List Bytes
push_front c [] = (c ∷ []) ∷ []
push_front c (w ∷ ws) = (c ∷ w) ∷ ws

abbrev pub starts_word : Bytes → Bool
starts_word [] = false
starts_word (c ∷ cs) = not (is_space c)

-- `b.split()`
unfoldable pub words : Bytes → List Bytes
words [] = []
words (c ∷ cs) =
    let rest = words cs in
    if is_space c then rest else if starts_word cs then push_front c rest else (c ∷ []) ∷ rest

abbrev pub is_filled : Bytes → Bool
is_filled [] = false
is_filled (c ∷ cs) = true

-- `_split_csv_bytes`
abbrev pub split_csv_bytes : Bytes → List Bytes
split_csv_bytes raw = filter is_filled (split_on b',' raw)

abbrev pub make_row :
    Option ℤ
    → Option ℤ
    → Bytes
    → Unescaped
    → Unescaped
    → Bytes
    → Bytes
    → Bytes
    → Bytes
    → Parsed MountRow
make_row (some mount_id) (some parent_id) device (ok root) (ok point) options kind source super =
    parsed (record {
      mount_id = mount_id;
      parent_id = parent_id;
      major_minor = device;
      root = root;
      mount_point = point;
      options = split_csv_bytes options;
      filesystem_type = kind;
      mount_source = source;
      super_options = split_csv_bytes super;
    })
make_row (some mount_id) (some parent_id) device (ok root) value_error options kind source super =
    raised bad_value
make_row (some mount_id) (some parent_id) device value_error point options kind source super =
    raised bad_value
make_row (some mount_id) none device root point options kind source super = raised bad_value
make_row none parent_id device root point options kind source super = raised bad_value

-- the fields of the two sides, with `MIN_LEFT_FIELDS` and `MIN_RIGHT_FIELDS`
unfoldable pub row_of : Bytes → List Bytes → List Bytes → Parsed MountRow
row_of line (id ∷ parent ∷ device ∷ root ∷ point ∷ options ∷ optional)
      (kind ∷ source ∷ super ∷ rest) =
    make_row (int_of id) (int_of parent) device (unescape_mount_path root)
      (unescape_mount_path point) options kind source super
row_of line left right = raised (too_few_fields line)

abbrev pub row_from : Bytes → Option (Bytes × Bytes) → Parsed MountRow
row_from line none = raised (missing_separator line)
row_from line (some (left, right)) = row_of line (words left) (words right)

-- one line that is not blank
abbrev pub parse_line : Bytes → Parsed MountRow
parse_line line = row_from line (partition line)

abbrev pub prepend_row : Parsed MountRow → Parsed (List MountRow) → Parsed (List MountRow)
prepend_row (raised e) rest = raised e
prepend_row (parsed row) (raised e) = raised e
prepend_row (parsed row) (parsed rows) = parsed (row ∷ rows)

abbrev pub is_line_break : ℕ → Bool
is_line_break c = c == b'\n' || c == 13

abbrev pub push_line : ℕ → List Bytes → List Bytes
push_line c [] = (c ∷ []) ∷ []
push_line c (l ∷ ls) = (c ∷ l) ∷ ls

-- `splitlines`, but for empty lines, which the loop skips
unfoldable pub split_lines : Bytes → List Bytes
split_lines [] = [] ∷ []
split_lines (c ∷ cs) =
    let rest = split_lines cs in if is_line_break c then [] ∷ rest else push_line c rest

abbrev pub parse_stripped : Bytes → Parsed (List MountRow) → Parsed (List MountRow)
parse_stripped [] rest = rest
parse_stripped (c ∷ cs) rest = prepend_row (parse_line (c ∷ cs)) rest

-- the loop over the lines
unfoldable pub parse_lines : List Bytes → Parsed (List MountRow)
parse_lines [] = parsed []
parse_lines (l ∷ ls) = parse_stripped (strip is_space l) (parse_lines ls)

unfoldable pub parse_mountinfo : Bytes → Parsed (List MountRow)
parse_mountinfo raw = parse_lines (split_lines raw)
