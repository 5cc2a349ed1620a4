-- ===== src/Diagnostics/Lsof/Framing.antt =====
-- diagnostics/deleted_open.py: the fields and lines of `lsof -F0` are taken apart.
use watchdirs.Prelude.{
  ℕ, ◌≡◌, ◌≤◌, refl, false, Option, none, some, List, [], ◌∷◌, ◌++◌, ◌==◌, All, All-append, Empty,
  arith, ◌∙◌, map, All-map,
}
use watchdirs.Prelude.Bytes.{Bytes}
use watchdirs.Prelude.Text.{strip_same, strip_first, split_on, split_on-append, digits_text}
use watchdirs.Diagnostics.Lsof.{deleted_marker, Parser, handle_field, is_newline, handle_fields}
use watchdirs.Diagnostics.Lsof.Printed.{
  Digits, IsDecimal, print_digits, OpenFile, Process, print_line, print_lines, size_fields,
  file_line, process_line, process_lines, IsPlain, IsFile, IsProcess, IsOther, IsDecimalSize,
}

unfoldable pub handle_line : List Bytes → Parser → Parser
handle_line [] p = p
handle_line (f ∷ fs) p = handle_line fs (handle_field f p)

unfoldable pub handle_lines : List (List Bytes) → Parser → Parser
handle_lines [] p = p
handle_lines (l ∷ ls) p = handle_lines ls (handle_line l p)

-- Every line starts behind the newline of the line before it, but for the first one.
abbrev pub IsLine : List Bytes → Type 0
IsLine [] = Empty
IsLine (f ∷ fs) = All IsPlain (f ∷ fs)

no_nul : (b : Bytes) → IsPlain b → All (λ c. (c == 0) ≡ false) b
no_nul b h = All-map (λ c k. k.0) b h

no_newline : (b : Bytes) → IsPlain b → All (λ c. is_newline c ≡ false) b
no_newline b h = All-map (λ c k. k.1) b h

fields_after :
    (fs : List Bytes) (rest : Bytes) (p : Parser)
    → All IsPlain fs
    → handle_fields (split_on 0 (print_line fs rest)) p
      ≡ handle_fields (split_on 0 (b'\n' ∷ rest)) (handle_line fs p)
unfolding print_line handle_line handle_fields
fields_after [] rest p h = refl
fields_after (f ∷ fs) rest p h =
    rw
      (
        split_on-append 0 f (print_line fs rest) (no_nul f h.0),
        handle_fields,
        strip_same is_newline f (no_newline f h.0),
      )
      (fields_after fs rest (handle_field f p) h.1)

line_after :
    (l : List Bytes) (rest : Bytes) (p : Parser)
    → IsLine l
    → handle_fields (split_on 0 (b'\n' ∷ print_line l rest)) p
      ≡ handle_fields (split_on 0 (b'\n' ∷ rest)) (handle_line l p)
unfolding print_line handle_line handle_fields
line_after [] rest p h = elim h [ ]
line_after (f ∷ fs) rest p h =
    rw
      (
        split_on-append 0 (b'\n' ∷ f) (print_line fs rest) (refl, no_nul f h.0),
        handle_fields,
        strip_first is_newline b'\n' f refl (no_newline f h.0),
      )
      (fields_after fs rest (handle_field f p) h.1)

lines_after :
    (ls : List (List Bytes)) (p : Parser)
    → All IsLine ls
    → handle_fields (split_on 0 (b'\n' ∷ print_lines ls)) p ≡ handle_lines ls p
unfolding print_lines handle_lines handle_fields handle_field
lines_after [] p h = refl
lines_after (l ∷ ls) p h =
    line_after l (print_lines ls) p h.0 ∙ lines_after ls (handle_line l p) h.1

pub handle_fields-print_lines :
    (ls : List (List Bytes)) (p : Parser)
    → All IsLine ls
    → handle_fields (split_on 0 (print_lines ls)) p ≡ handle_lines ls p
unfolding print_lines handle_lines handle_fields handle_field
handle_fields-print_lines [] p h = refl
handle_fields-print_lines ([] ∷ ls) p h = elim h.0 [ ]
handle_fields-print_lines ((f ∷ fs) ∷ ls) p h =
    fields_after (f ∷ fs) (print_lines ls) p h.0 ∙ lines_after ls (handle_line (f ∷ fs) p) h.1

digits-IsPlain : (ds : List ℕ) → All (λ d. d ≤ 9) ds → IsPlain (digits_text ds)
digits-IsPlain [] h = tt
digits-IsPlain (d ∷ ds) h = ((ground (arith, h.0), ground (arith, h.0)), digits-IsPlain ds h.1)

print_digits-IsPlain : (d : Digits) → IsDecimal d → IsPlain (print_digits d)
print_digits-IsPlain d h = digits-IsPlain (d.first ∷ d.more) h

marker-IsPlain : IsPlain deleted_marker
marker-IsPlain = ground arith

name-IsPlain : (b : Bytes) → IsPlain b → IsPlain (b ++ deleted_marker)
name-IsPlain b h =
    All-append (λ c. ((c == 0) ≡ false) × (is_newline c ≡ false)) b deleted_marker h marker-IsPlain

others-IsPlain : (fs : List Bytes) → All IsOther fs → All IsPlain fs
others-IsPlain [] h = tt
others-IsPlain (f ∷ fs) h = (h.0.1, others-IsPlain fs h.1)

name_fields-IsPlain :
    (f : OpenFile)
    → IsFile f
    → All IsPlain (f.after_size ++ ((b'n' ∷ (f.name ++ deleted_marker)) ∷ []))
name_fields-IsPlain f h =
    All-append IsPlain f.after_size ((b'n' ∷ (f.name ++ deleted_marker)) ∷ [])
      (others-IsPlain f.after_size h.4) (((refl, refl), name-IsPlain f.name h.2), tt)

size_fields-IsPlain :
    (size : Option Digits) (fields : List Bytes)
    → IsDecimalSize size
    → All IsPlain fields
    → All IsPlain (size_fields size fields)
unfolding size_fields
size_fields-IsPlain none fields h k = k
size_fields-IsPlain (some d) fields h k = (((refl, refl), print_digits-IsPlain d h), k)

file_line-IsLine : (f : OpenFile) → IsFile f → IsLine (file_line f)
unfolding file_line
file_line-IsLine f h =
    let names = f.after_size ++ ((b'n' ∷ (f.name ++ deleted_marker)) ∷ []) in
    (
      ((refl, refl), h.0),
      All-append IsPlain f.after_fd (size_fields f.size names) (others-IsPlain f.after_fd h.3)
          (size_fields-IsPlain f.size names h.1 (name_fields-IsPlain f h)),
    )

file_lines-IsLine : (fs : List OpenFile) → All IsFile fs → All IsLine (map file_line fs)
file_lines-IsLine [] h = tt
file_lines-IsLine (f ∷ fs) h = (file_line-IsLine f h.0, file_lines-IsLine fs h.1)

pub lines_plain : (ps : List Process) → All IsProcess ps → All IsLine (process_lines ps)
unfolding process_lines process_line
lines_plain [] h = tt
lines_plain (p ∷ ps) h = (
  (
    ((refl, refl), print_digits-IsPlain p.pid h.0.0),
    All-append IsPlain p.after_pid ((b'c' ∷ p.command) ∷ p.after_command)
        (others-IsPlain p.after_pid h.0.3)
        (((refl, refl), h.0.1), others-IsPlain p.after_command h.0.4),
  ),
  All-append IsLine (map file_line p.files) (process_lines ps) (file_lines-IsLine p.files h.0.2)
      (lines_plain ps h.1),
)
