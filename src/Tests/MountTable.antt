-- ===== src/Tests/MountTable.antt =====
-- The theorems about the lines of /proc/self/mountinfo at a concrete table.
use watchdirs.Prelude.{
  ℕ, ◌≡◌, refl, ap, Bool, true, false, ◌&&◌, ◌||◌, not, List, [], ◌∷◌, ◌++◌, arith, ltb, ◌==◌, All,
  all, map, length,
}
use watchdirs.Prelude.Bytes.{Bytes}
use watchdirs.Prelude.Text.{is_space}
use watchdirs.Mounts.Unescape.{escape}
use watchdirs.Mounts.Parse.{parse_mountinfo, parsed}
use watchdirs.Mounts.Parse.Words.{IsField}
use watchdirs.Mounts.Parse.RoundTrip.{
  Entry, entry_row, print_mountinfo, IsEntry, left_fields, right_fields,
  parse_mountinfo-print_mountinfo,
}
use watchdirs.Mounts.Parse.Failures.{IsOutcome, stripped_lines, parse_mountinfo-IsOutcome}

abbrev is_special : ℕ → Bool
is_special c = ltb c 33 || c == 0x5c

abbrev head : Bytes → ℕ
head [] = 0
head (c ∷ cs) = c

abbrev is_field : Bytes → Bool
is_field [] = false
is_field (c ∷ []) = not (is_space c) && not (c == b'-')
is_field (c ∷ d ∷ cs) = all (λ x. not (is_space x)) (c ∷ d ∷ cs)

all_plain : (w : Bytes) → all (λ x. not (is_space x)) w ≡ true → All (λ d. is_space d ≡ false) w
all_plain [] h = tt
all_plain (c ∷ cs) h = ground (arith, all_plain cs)

is_field-IsField : (w : Bytes) → is_field w ≡ true → IsField w
is_field-IsField [] h = absurd (ground (arith, h))
is_field-IsField (c ∷ []) h =
    let dash : (b'-' == b'-') ≡ true = refl in
    ((ground (arith, h), tt), λ e. ground (arith, h, dash, ap head e))
is_field-IsField (c ∷ d ∷ cs) h =
    (all_plain (c ∷ d ∷ cs) h, λ e. absurd (omega (arith, ap (length {A = ℕ}) e)))

all-is_field : (ws : List Bytes) → all is_field ws ≡ true → All IsField ws
all-is_field [] h = tt
all-is_field (w ∷ ws) h =
    (is_field-IsField w (ground (arith, h)), all-is_field ws (ground (arith, h)))

-- a mount of "/a b" on "/m", with the options rw and ro
abbrev spaced_entry : Entry
spaced_entry = record {
  mount_id = 3 ∷ 6 ∷ [];
  parent_id = 1 ∷ [];
  major_minor = b'8' ∷ b':' ∷ b'1' ∷ [];
  root = b'/' ∷ b'a' ∷ b' ' ∷ b'b' ∷ [];
  mount_point = b'/' ∷ b'm' ∷ [];
  options = (b'r' ∷ b'w' ∷ []) ∷ (b'r' ∷ b'o' ∷ []) ∷ [];
  optional_fields = (b's' ∷ b':' ∷ b'1' ∷ []) ∷ [];
  filesystem_type = b'e' ∷ b'x' ∷ [];
  mount_source = b's' ∷ b'd' ∷ [];
  super_options = (b'r' ∷ b'w' ∷ []) ∷ [];
}

abbrev entries : List Entry
entries = spaced_entry ∷ spaced_entry ∷ []

spaced_entry_fields :
    All IsField (left_fields is_special spaced_entry) × All IsField (right_fields spaced_entry)
unfolding escape
spaced_entry_fields = (
  all-is_field (left_fields is_special spaced_entry) refl,
  all-is_field (right_fields spaced_entry) refl,
)

spaced_entry-IsEntry : IsEntry is_special spaced_entry
spaced_entry-IsEntry = (
  ((omega arith, (omega arith, tt)), (omega arith, tt)),
  (
    (omega arith, (omega arith, (omega arith, (omega arith, tt)))),
    (omega arith, (omega arith, tt)),
  ),
  (
    ((refl, (refl, (refl, tt))), ((refl, (refl, (refl, tt))), tt)),
    ((refl, (refl, (refl, tt))), tt),
  ),
  spaced_entry_fields,
)

parse_mountinfo_example :
    parse_mountinfo (print_mountinfo is_special entries) ≡ parsed (map entry_row entries)
parse_mountinfo_example =
    parse_mountinfo-print_mountinfo is_special entries refl
      (spaced_entry-IsEntry, (spaced_entry-IsEntry, tt))

-- a line with two fields, behind a mount and a blank line
abbrev short_table : Bytes
short_table =
    print_mountinfo is_special (spaced_entry ∷ [])
    ++ (b'\n' ∷ b'3' ∷ b' ' ∷ b'1' ∷ b' ' ∷ b'-' ∷ b' ' ∷ b'x' ∷ b'\n' ∷ [])

parse_mountinfo-IsOutcome_example :
    IsOutcome (stripped_lines short_table) (parse_mountinfo short_table)
parse_mountinfo-IsOutcome_example = parse_mountinfo-IsOutcome short_table
