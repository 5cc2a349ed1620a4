-- ===== src/Mounts/Parse/Lines.antt =====
-- collect/mounts.py: texts that are split at line ends and at commas, and lines that are stripped.
use watchdirs.Prelude.{
  ◌≡◌, refl, ap, true, false, List, [], ◌∷◌, ◌++◌, arith, ◌==◌, All, All-map, all,
}
use watchdirs.Prelude.Bytes.{Bytes}
use watchdirs.Prelude.Text.{is_space, strip, rstrip, rstrip_same, split_on-append, split_on_last}
use watchdirs.Mounts.Parse.{is_line_break, push_line, split_lines, is_filled, split_csv_bytes}
use watchdirs.Mounts.Parse.Words.{IsWord, join_with}

pub split_lines-append :
    (l rest : Bytes)
    → All (λ c. is_line_break c ≡ false) l
    → split_lines (l ++ (b'\n' ∷ rest)) ≡ l ∷ split_lines rest
unfolding split_lines
split_lines-append [] rest h = refl
split_lines-append (c ∷ l) rest h = rw (h.0) (ap (push_line c) (split_lines-append l rest h.1))

-- not empty, and without a comma
abbrev pub IsOption : Bytes → Type 0
IsOption o = (is_filled o ≡ true) × All (λ c. (c == b',') ≡ false) o

pub split_csv_bytes-join_with :
    (os : List Bytes) → All IsOption os → split_csv_bytes (join_with b',' os) ≡ os
split_csv_bytes-join_with [] h = refl
split_csv_bytes-join_with (o ∷ []) h = rw (split_on_last b',' o h.0.1, h.0.0) refl
split_csv_bytes-join_with (o ∷ p ∷ os) h =
    rw (split_on-append b',' o (join_with b',' (p ∷ os)) h.0.1, h.0.0)
      (ap (λ r. o ∷ r) (split_csv_bytes-join_with (p ∷ os) h.1))

-- a text whose last byte is no white space
abbrev pub IsKept : Bytes → Type 0
IsKept b = (all is_space b ≡ false) × (rstrip is_space b ≡ b)

pub word-IsKept : (w : Bytes) → IsWord w → IsKept w
word-IsKept [] h = elim h [ ]
word-IsKept (c ∷ cs) h = (rw (h.0) refl, rstrip_same is_space (c ∷ cs) h)

pub append-IsKept : (a b : Bytes) → IsKept b → IsKept (a ++ b)
append-IsKept [] b h = h
append-IsKept (c ∷ a) b h =
    let ih = append-IsKept a b h in
    let none_kept : all is_space (c ∷ a ++ b) ≡ false = ground (arith, ih.0) in
    (none_kept, rw none_kept (ap (λ r. c ∷ r) ih.1))

-- a text whose first and last bytes are no white space
pub strip_kept :
    (w a b : Bytes) → IsWord w → IsKept b → strip is_space ((w ++ a) ++ b) ≡ (w ++ a) ++ b
strip_kept [] a b h k = elim h [ ]
strip_kept (c ∷ w) a b h k = rw (h.0) ((append-IsKept (c ∷ w ++ a) b k).1)

pub no_break_word : (w : Bytes) → IsWord w → All (λ c. is_line_break c ≡ false) w
no_break_word [] h = tt
no_break_word (c ∷ cs) h =
    All-map {P = λ d. is_space d ≡ false} {Q = λ d. is_line_break d ≡ false}
      (λ d plain. ground (arith, plain)) (c ∷ cs) h
