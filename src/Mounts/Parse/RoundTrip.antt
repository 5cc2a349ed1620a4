-- ===== src/Mounts/Parse/RoundTrip.antt =====
-- collect/mounts.py: what the kernel writes to /proc/self/mountinfo is parsed back.
use watchdirs.Prelude.{
  ℕ, ◌≤◌, ◌<◌, ◌≡◌, refl, ap, ◌∙◌, Bool, true, false, some, List, [], ◌∷◌, ◌++◌, arith, All,
  All-append, map,
}
use watchdirs.Prelude.Bytes.{Bytes}
use watchdirs.Prelude.Int.{pos}
use watchdirs.Prelude.Text.{is_space, strip, digits_text, decimal_from, int_of, int_of-digits_text}
use watchdirs.Mounts.Unescape.{escape, unescape-escape}
use watchdirs.Mounts.Parse.{
  MountRow, Parsed, parsed, field_separator, words, row_of, row_from, parse_line, prepend_row,
  split_lines, parse_stripped, parse_lines, parse_mountinfo, is_line_break, is_filled,
}
use watchdirs.Mounts.Parse.Words.{IsWord, IsField, join_with, words-join_with, partition-join_with}
use watchdirs.Mounts.Parse.Lines.{
  split_lines-append, IsOption, IsKept, split_csv_bytes-join_with, word-IsKept, append-IsKept,
  strip_kept, no_break_word,
}

-- one mount, as the kernel knows it: its numbers by their digits, and the optional fields
pub record Entry : Type 0 where
  pub mount_id : List ℕ
  pub parent_id : List ℕ
  pub major_minor : Bytes
  pub root : Bytes
  pub mount_point : Bytes
  pub options : List Bytes
  pub optional_fields : List Bytes
  pub filesystem_type : Bytes
  pub mount_source : Bytes
  pub super_options : List Bytes

-- the row that is expected of it
abbrev pub entry_row : Entry → MountRow
entry_row e = record {
  mount_id = pos (decimal_from 0 (e.mount_id));
  parent_id = pos (decimal_from 0 (e.parent_id));
  major_minor = e.major_minor;
  root = e.root;
  mount_point = e.mount_point;
  options = e.options;
  filesystem_type = e.filesystem_type;
  mount_source = e.mount_source;
  super_options = e.super_options;
}

abbrev pub AreDigits : List ℕ → Type 0
AreDigits ds = All (λ d. d ≤ 9) ds

abbrev pub right_fields : Entry → List Bytes
right_fields e = e.filesystem_type ∷ e.mount_source ∷ join_with b',' (e.super_options) ∷ []

module _ (special : ℕ → Bool) where
  abbrev pub fields_behind_id : Entry → List Bytes
  fields_behind_id e =
      digits_text (e.parent_id)
      ∷ e.major_minor
      ∷ escape special (e.root)
      ∷ escape special (e.mount_point)
      ∷ join_with b',' (e.options)
      ∷ e.optional_fields

  abbrev pub left_fields : Entry → List Bytes
  left_fields e = digits_text (e.mount_id) ∷ fields_behind_id e

  abbrev pub print_entry : Entry → Bytes
  print_entry e =
      join_with b' ' (left_fields e) ++ (field_separator ++ join_with b' ' (right_fields e))

  abbrev pub print_mountinfo : List Entry → Bytes
  print_mountinfo [] = []
  print_mountinfo (e ∷ es) = print_entry e ++ (b'\n' ∷ print_mountinfo es)

  -- the numbers are digits, the paths are bytes, no option is empty or has a comma, and no field is
  -- empty, has white space or is a single dash
  abbrev pub IsEntry : Entry → Type 0
  IsEntry e =
      (AreDigits (e.mount_id) × AreDigits (e.parent_id))
      × (All (λ c. c < 256) (e.root) × All (λ c. c < 256) (e.mount_point))
      × (All IsOption (e.options) × All IsOption (e.super_options))
      × (All IsField (left_fields e) × All IsField (right_fields e))

  int_of_word :
      (ds : List ℕ)
      → AreDigits ds
      → IsWord (digits_text ds)
      → int_of (digits_text ds) ≡ some (pos (decimal_from 0 ds))
  int_of_word [] h k = elim k [ ]
  int_of_word (d ∷ ds) h k = int_of-digits_text d ds h

  row_of-fields :
      (line : Bytes) (e : Entry)
      → special 0x5c ≡ true
      → IsEntry e
      → row_of line (left_fields e) (right_fields e) ≡ parsed (entry_row e)
  unfolding row_of
  row_of-fields line e k h =
      rw
        (
          int_of_word (e.mount_id) h.0.0 h.3.0.0.0,
          int_of_word (e.parent_id) h.0.1 h.3.0.1.0.0,
          unescape-escape special (e.root) k h.1.0,
          unescape-escape special (e.mount_point) k h.1.1,
          split_csv_bytes-join_with (e.options) h.2.0,
          split_csv_bytes-join_with (e.super_options) h.2.1,
        )
        refl

  all_words : (ws : List Bytes) → All IsField ws → All IsWord ws
  all_words [] h = tt
  all_words (w ∷ ws) h = (h.0.0, all_words ws h.1)

  parse_line-print_entry :
      (e : Entry)
      → special 0x5c ≡ true
      → IsEntry e
      → parse_line (print_entry e) ≡ parsed (entry_row e)
  parse_line-print_entry e k h =
      let line = print_entry e in
      let left = words-join_with (left_fields e) (all_words (left_fields e) h.3.0) in
      let right = words-join_with (right_fields e) (all_words (right_fields e) h.3.1) in
      ap (row_from line)
        (partition-join_with (left_fields e) (join_with b' ' (right_fields e)) h.3.0)
      ∙ ap (λ l. row_of line l (words (join_with b' ' (right_fields e)))) left
      ∙ ap (row_of line (left_fields e)) right
      ∙ row_of-fields line e k h

  join_with-IsKept :
      (w : Bytes) (ws : List Bytes) → All IsField (w ∷ ws) → IsKept (join_with b' ' (w ∷ ws))
  join_with-IsKept w [] h = word-IsKept w h.0.0
  join_with-IsKept w (v ∷ ws) h =
      append-IsKept w (b' ' ∷ join_with b' ' (v ∷ ws))
        (append-IsKept (b' ' ∷ []) (join_with b' ' (v ∷ ws)) (join_with-IsKept v ws h.1))

  -- what `strip` is applied to has no white space at its ends
  strip-print_entry : (e : Entry) → IsEntry e → strip is_space (print_entry e) ≡ print_entry e
  strip-print_entry e h =
      let others = fields_behind_id e in
      let right = join_with b' ' (right_fields e) in
      let right_kept =
        join_with-IsKept (e.filesystem_type)
          (e.mount_source ∷ join_with b',' (e.super_options) ∷ []) h.3.1 in
      strip_kept (digits_text (e.mount_id)) (b' ' ∷ join_with b' ' others)
        (field_separator ++ right) h.3.0.0.0 (append-IsKept field_separator right right_kept)

  no_break_join :
      (ws : List Bytes) → All IsField ws → All (λ c. is_line_break c ≡ false) (join_with b' ' ws)
  no_break_join [] h = tt
  no_break_join (w ∷ []) h = no_break_word w h.0.0
  no_break_join (w ∷ v ∷ ws) h =
      All-append (λ c. is_line_break c ≡ false) w (b' ' ∷ join_with b' ' (v ∷ ws))
        (no_break_word w h.0.0) (refl, no_break_join (v ∷ ws) h.1)

  no_break_entry : (e : Entry) → IsEntry e → All (λ c. is_line_break c ≡ false) (print_entry e)
  no_break_entry e h =
      All-append (λ c. is_line_break c ≡ false) (join_with b' ' (left_fields e))
        (field_separator ++ join_with b' ' (right_fields e)) (no_break_join (left_fields e) h.3.0)
        (refl, (refl, (refl, no_break_join (right_fields e) h.3.1)))

  parse_stripped_line :
      (b : Bytes) (rest : Parsed (List MountRow))
      → is_filled b ≡ true
      → parse_stripped b rest ≡ prepend_row (parse_line b) rest
  parse_stripped_line [] rest h = ground arith
  parse_stripped_line (c ∷ b) rest h = refl

  filled_word : (w a b : Bytes) → IsWord w → is_filled ((w ++ a) ++ b) ≡ true
  filled_word [] a b h = elim h [ ]
  filled_word (c ∷ w) a b h = refl

  entry_filled : (e : Entry) → IsEntry e → is_filled (print_entry e) ≡ true
  entry_filled e h =
      filled_word (digits_text (e.mount_id)) (b' ' ∷ join_with b' ' (fields_behind_id e))
        (field_separator ++ join_with b' ' (right_fields e)) h.3.0.0.0

  parse_lines-strip :
      (l : Bytes) (ls : List Bytes)
      → strip is_space l ≡ l
      → parse_lines (l ∷ ls) ≡ parse_stripped l (parse_lines ls)
  unfolding parse_lines
  parse_lines-strip l ls h = ap (λ b. parse_stripped b (parse_lines ls)) h

  parse_lines-print_mountinfo :
      (es : List Entry)
      → special 0x5c ≡ true
      → All IsEntry es
      → parse_lines (split_lines (print_mountinfo es)) ≡ parsed (map entry_row es)
  parse_lines-print_mountinfo [] k h = unfold parse_lines in unfold split_lines in refl
  parse_lines-print_mountinfo (e ∷ es) k h =
      let rest = parse_lines (split_lines (print_mountinfo es)) in
      let lines = split_lines-append (print_entry e) (print_mountinfo es) (no_break_entry e h.0) in
      ap parse_lines lines
      ∙ parse_lines-strip (print_entry e) (split_lines (print_mountinfo es))
          (strip-print_entry e h.0)
      ∙ parse_stripped_line (print_entry e) rest (entry_filled e h.0)
      ∙ rw (parse_line-print_entry e k h.0, parse_lines-print_mountinfo es k h.1) refl

  -- What the kernel prints for a list of mounts is parsed to one row for each mount, in order, with
  -- its numbers, its unescaped paths and its options; if the backslash is among the bytes that the
  -- kernel escapes, and each entry's fields are as `IsEntry` says.
  pub parse_mountinfo-print_mountinfo :
      (es : List Entry)
      → special 0x5c ≡ true
      → All IsEntry es
      → parse_mountinfo (print_mountinfo es) ≡ parsed (map entry_row es)
  unfolding parse_mountinfo
  parse_mountinfo-print_mountinfo es k h = parse_lines-print_mountinfo es k h
