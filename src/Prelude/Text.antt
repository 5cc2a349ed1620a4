-- ===== src/Prelude/Text.antt =====
-- Python's tests and conversions on `bytes`, and on texts as lists of code points: digits, `int`,
-- `split`, `strip`, `endswith` and `removesuffix`.
use watchdirs.Prelude.Tests.{leb, ◌==◌, if◌then◌else◌, Bool-cases}
use watchdirs.Prelude.Lists.{length, All, length-append, all}
use watchdirs.Prelude.Bytes.{Bytes, bytes_eq, bytes_eq_iff, bytes_eq_refl}
use watchdirs.Prelude.Int.{ℤ, pos, minus}
use Prim.Native.Nat.{ℕ, ◌+◌, ◌-◌, ◌*◌, ◌≤◌}
use mathlib.Core.Path.{◌≡◌, refl, ap}
use mathlib.Core.Logic.{inl, inr}
use mathlib.Core.Bool.{Bool, true, false, ◌&&◌, ◌||◌}
use mathlib.Core.Option.{Option, none, some}
use mathlib.Core.List.{List, [], ◌∷◌, ◌++◌}
use native.Mathlib.Omega.{arith}

abbrev pub is_digit : ℕ → Bool
is_digit c = leb 0x30 c && leb c 0x39

-- the digits as characters
abbrev pub digits_text : List ℕ → List ℕ
digits_text [] = []
digits_text (d ∷ ds) = (0x30 + d) ∷ digits_text ds

-- the number that digits stand for, after a number
abbrev pub decimal_from : ℕ → List ℕ → ℕ
decimal_from n [] = n
decimal_from n (d ∷ ds) = decimal_from (n * 10 + d) ds

pub is_digit_char : (d : ℕ) → d ≤ 9 → is_digit (0x30 + d) ≡ true
is_digit_char d h = ground arith

pub char_value : (d : ℕ) → 0x30 + d - 0x30 ≡ d
char_value d = omega arith

-- ASCII whitespace, which `bytes.split` and `int` know
abbrev pub is_space : ℕ → Bool
is_space c = (leb 9 c && leb c 13) || c == 32

module _ (p : ℕ → Bool) where
  abbrev pub lstrip : Bytes → Bytes
  lstrip [] = []
  lstrip (c ∷ cs) = let rest = lstrip cs in if p c then rest else c ∷ cs

  abbrev pub rstrip : Bytes → Bytes
  rstrip [] = []
  rstrip (c ∷ cs) = let rest = rstrip cs in if all p (c ∷ cs) then [] else c ∷ rest

  abbrev pub strip : Bytes → Bytes
  strip b = rstrip (lstrip b)

  lstrip_same : (b : Bytes) → All (λ c. p c ≡ false) b → lstrip b ≡ b
  lstrip_same [] h = refl
  lstrip_same (c ∷ cs) h = rw (h.0) refl

  pub rstrip_same : (b : Bytes) → All (λ c. p c ≡ false) b → rstrip b ≡ b
  rstrip_same [] h = refl
  rstrip_same (c ∷ cs) h = rw (h.0, rstrip_same cs h.1) refl

  -- what has no character to strip stays, also behind characters to strip
  pub strip_same : (b : Bytes) → All (λ c. p c ≡ false) b → strip b ≡ b
  strip_same b h = rw (lstrip_same b h) (rstrip_same b h)

  pub strip_first : (c : ℕ) (b : Bytes) → p c ≡ true → All (λ c. p c ≡ false) b → strip (c ∷ b) ≡ b
  strip_first c b h k = rw h (strip_same b k)

-- the digits of a number, single underscores between them
abbrev pub digits_from : ℕ → Bool → Bytes → Option ℕ
digits_from n after [] = if after then some n else none
digits_from n after (c ∷ cs) =
    let next = digits_from (n * 10 + (c - 0x30)) true cs in
    let skip = digits_from n false cs in
    if is_digit c then next else if c == 0x5f && after then skip else none

abbrev positive : Option ℕ → Option ℤ
positive none = none
positive (some n) = some (pos n)

abbrev negative : Option ℕ → Option ℤ
negative none = none
negative (some n) = some (minus 0 n)

abbrev signed : Bytes → Option ℤ
signed [] = none
signed (c ∷ cs) =
    if c == 0x2d
    then negative (digits_from 0 false cs)
    else if c == 0x2b
    then positive (digits_from 0 false cs)
    else positive (digits_from 0 false (c ∷ cs))

-- `int(b)`; none where it raises `ValueError`, but for its limit of 4300 digits
unfoldable pub int_of : Bytes → Option ℤ
int_of b = signed (strip is_space b)

digits_from-digits_text :
    (n : ℕ) (ds : List ℕ)
    → All (λ d. d ≤ 9) ds
    → digits_from n true (digits_text ds) ≡ some (decimal_from n ds)
digits_from-digits_text n [] h = refl
digits_from-digits_text n (d ∷ ds) h =
    rw (is_digit_char d h.0, char_value d) (digits_from-digits_text (n * 10 + d) ds h.1)

digits_text_plain :
    (ds : List ℕ) → All (λ d. d ≤ 9) ds → All (λ c. is_space c ≡ false) (digits_text ds)
digits_text_plain [] h = tt
digits_text_plain (d ∷ ds) h = (ground (arith, h.0), digits_text_plain ds h.1)

pub int_of-digits_text :
    (d : ℕ) (ds : List ℕ)
    → All (λ d. d ≤ 9) (d ∷ ds)
    → int_of (digits_text (d ∷ ds)) ≡ some (pos (decimal_from 0 (d ∷ ds)))
unfolding int_of
int_of-digits_text d ds h =
    let stripped = strip_same is_space (digits_text (d ∷ ds)) (digits_text_plain (d ∷ ds) h) in
    let no_minus : ((0x30 + d) == 0x2d) ≡ false = ground arith in
    let no_plus : ((0x30 + d) == 0x2b) ≡ false = ground arith in
    let digits = digits_from-digits_text (0 * 10 + d) ds h.1 in
    rw (stripped, no_minus, no_plus, is_digit_char d h.0, char_value d, digits) refl

-- `b.split(sep)` for one byte
abbrev push_front : ℕ → List Bytes → List Bytes
push_front c [] = (c ∷ []) ∷ []
push_front c (w ∷ ws) = (c ∷ w) ∷ ws

abbrev pub split_on : ℕ → Bytes → List Bytes
split_on sep [] = [] ∷ []
split_on sep (c ∷ cs) =
    let rest = split_on sep cs in if c == sep then [] ∷ rest else push_front c rest

pub split_on-append :
    (sep : ℕ) (w rest : Bytes)
    → All (λ c. (c == sep) ≡ false) w
    → split_on sep (w ++ (sep ∷ rest)) ≡ w ∷ split_on sep rest
split_on-append sep [] rest h = let same : (sep == sep) ≡ true = ground arith in rw same refl
split_on-append sep (c ∷ w) rest h = rw (h.0, split_on-append sep w rest h.1) refl

pub split_on_last :
    (sep : ℕ) (w : Bytes) → All (λ c. (c == sep) ≡ false) w → split_on sep w ≡ w ∷ []
split_on_last sep [] h = refl
split_on_last sep (c ∷ w) h = rw (h.0, split_on_last sep w h.1) refl

-- `b.endswith(s)`
unfoldable pub ends_with : Bytes → Bytes → Bool
ends_with [] s = bytes_eq [] s
ends_with (c ∷ cs) s = bytes_eq (c ∷ cs) s || ends_with cs s

-- `b.removesuffix(s)`
unfoldable pub remove_suffix : Bytes → Bytes → Bytes
remove_suffix [] s = []
remove_suffix (c ∷ cs) s =
    let rest = remove_suffix cs s in if bytes_eq (c ∷ cs) s then [] else c ∷ rest

pub remove_suffix-append : (b s : Bytes) → remove_suffix (b ++ s) s ≡ b
unfolding remove_suffix
remove_suffix-append [] [] = refl
remove_suffix-append [] (c ∷ s) = rw (bytes_eq_refl (c ∷ s)) refl
remove_suffix-append (c ∷ b) s = elim (Bool-cases (bytes_eq (c ∷ b ++ s) s)) [
  | inl same ↦
      absurd (
        omega
          (arith, length-append b s, ap (length {A = ℕ}) ((bytes_eq_iff (c ∷ b ++ s) s).0 same)))
  | inr other ↦ rw (other, remove_suffix-append b s) refl
]

pub remove_suffix_none : (b s : Bytes) → ends_with b s ≡ false → remove_suffix b s ≡ b
unfolding remove_suffix ends_with
remove_suffix_none [] s h = refl
remove_suffix_none (c ∷ b) s h = ground (arith, remove_suffix_none b s)
