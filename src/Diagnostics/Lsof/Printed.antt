-- ===== src/Diagnostics/Lsof/Printed.antt =====
-- diagnostics/deleted_open.py: what `lsof -F0` prints of processes and their files.
use watchdirs.Prelude.{
  Empty, ℕ, ◌≡◌, ◌≤◌, false, Option, none, some, List, [], ◌∷◌, ◌++◌, ◌==◌, All, map,
}
use watchdirs.Prelude.Bytes.{Bytes}
use watchdirs.Prelude.Int.{ℤ, pos}
use watchdirs.Prelude.Text.{digits_text, decimal_from}
use watchdirs.Diagnostics.Rows.{DeletedOpenFile, ReportWarning, missing_size}
use watchdirs.Diagnostics.Lsof.{deleted_marker, lsof_row, is_newline}

-- a number by its digits
pub record Digits : Type 0 where
  pub first : ℕ
  pub more : List ℕ

abbrev pub IsDecimal : Digits → Type 0
IsDecimal d = All (λ c. c ≤ 9) (d.first ∷ d.more)

abbrev pub print_digits : Digits → Bytes
print_digits d = digits_text (d.first ∷ d.more)

abbrev pub value : Digits → ℤ
value d = pos (decimal_from 0 (d.first ∷ d.more))

-- `after_fd` and `after_size` are the other fields that lsof prints of a file, such as its access,
-- its type, its device and its inode.
pub record OpenFile : Type 0 where
  pub fd : Bytes
  pub after_fd : List Bytes
  pub size : Option Digits
  pub after_size : List Bytes
  pub name : Bytes

-- `after_pid` and `after_command` are the other fields that lsof prints of a process, such as its
-- group, its parent and its user.
pub record Process : Type 0 where
  pub pid : Digits
  pub after_pid : List Bytes
  pub command : Bytes
  pub after_command : List Bytes
  pub files : List OpenFile

-- the fields of a line, each behind a NUL, and the newline
unfoldable pub print_line : List Bytes → Bytes → Bytes
print_line [] rest = b'\n' ∷ rest
print_line (f ∷ fs) rest = f ++ (0 ∷ print_line fs rest)

unfoldable pub print_lines : List (List Bytes) → Bytes
print_lines [] = []
print_lines (l ∷ ls) = print_line l (print_lines ls)

unfoldable pub size_fields : Option Digits → List Bytes → List Bytes
size_fields none fields = fields
size_fields (some d) fields = (b's' ∷ print_digits d) ∷ fields

unfoldable pub file_line : OpenFile → List Bytes
file_line f =
    (b'f' ∷ f.fd)
    ∷ (f.after_fd
        ++ size_fields f.size (f.after_size ++ ((b'n' ∷ (f.name ++ deleted_marker)) ∷ [])))

unfoldable pub process_line : Process → List Bytes
process_line p =
    (b'p' ∷ print_digits p.pid) ∷ (p.after_pid ++ ((b'c' ∷ p.command) ∷ p.after_command))

unfoldable pub process_lines : List Process → List (List Bytes)
process_lines [] = []
process_lines (p ∷ ps) = process_line p ∷ (map file_line p.files ++ process_lines ps)

-- What lsof prints: a line for each process, and one for each of its deleted open files.
unfoldable pub print_lsof : List Process → Bytes
print_lsof ps = print_lines (process_lines ps)

abbrev pub file_size : Option Digits → Option ℤ
file_size none = none
file_size (some d) = some (value d)

abbrev pub file_row : Process → OpenFile → DeletedOpenFile
file_row p f = lsof_row (value p.pid) p.command (some f.fd) f.name (file_size f.size)

abbrev pub size_warnings : ℤ → Bytes → Option Digits → List ReportWarning
size_warnings pid name none = missing_size pid name ∷ []
size_warnings pid name (some d) = []

abbrev pub file_rows : Process → List OpenFile → List DeletedOpenFile
file_rows p [] = []
file_rows p (f ∷ fs) = file_row p f ∷ file_rows p fs

abbrev pub file_warnings : ℤ → List OpenFile → List ReportWarning
file_warnings pid [] = []
file_warnings pid (f ∷ fs) = size_warnings pid f.name f.size ++ file_warnings pid fs

-- A row for each file of each process, in order.
abbrev pub rows_of : List Process → List DeletedOpenFile
rows_of [] = []
rows_of (p ∷ ps) = file_rows p p.files ++ rows_of ps

-- A warning for each file without a size.
abbrev pub warnings_of : List Process → List ReportWarning
warnings_of [] = []
warnings_of (p ∷ ps) = file_warnings (value p.pid) p.files ++ warnings_of ps

-- no NUL and no newline
abbrev pub IsPlain : Bytes → Type 0
IsPlain b = All (λ c. ((c == 0) ≡ false) × (is_newline c ≡ false)) b

-- A field with none of the tags p, c, f, s and n. The others of `lsof -F0` are such fields.
abbrev pub HasOtherTag : Bytes → Type 0
HasOtherTag [] = Empty
HasOtherTag (tag ∷ value) =
    ((tag == b'p') ≡ false)
    × ((tag == b'c') ≡ false)
    × ((tag == b'f') ≡ false)
    × ((tag == b's') ≡ false)
    × ((tag == b'n') ≡ false)

abbrev pub IsOther : Bytes → Type 0
IsOther field = HasOtherTag field × IsPlain field

abbrev pub IsDecimalSize : Option Digits → Type 0
IsDecimalSize none = Unit
IsDecimalSize (some d) = IsDecimal d

abbrev pub IsFile : OpenFile → Type 0
IsFile f =
    IsPlain f.fd
    × IsDecimalSize f.size
    × IsPlain f.name
    × All IsOther f.after_fd
    × All IsOther f.after_size

abbrev pub IsProcess : Process → Type 0
IsProcess p =
    IsDecimal p.pid
    × IsPlain p.command
    × All IsFile p.files
    × All IsOther p.after_pid
    × All IsOther p.after_command
