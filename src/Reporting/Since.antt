-- ===== src/Reporting/Since.antt =====
-- `parse_since` of reporting/pairs.py: a positive count and a unit, in seconds. The text is the list
-- of its character codes.
use watchdirs.Prelude.{
  ℕ, ◌+◌, ◌-◌, ◌*◌, ◌≡◌, ◌≤◌, ◌<◌, ◌⊎◌, inl, inr, ◌↔◌, refl, true, ◌&&◌, Option, none, some, List,
  [], ◌∷◌, ◌++◌, leb, ◌==◌, if◌then◌else◌, All, ap, ◌∙◌, arith,
}
use watchdirs.Prelude.Text.{is_digit, digits_text, decimal_from, is_digit_char, char_value}

-- `_SINCE_SECONDS`
abbrev pub unit_seconds : ℕ → Option ℕ
unit_seconds c =
    if c == 0x73
    then some 1
    else if c == 0x6d
    then some 60
    else if c == 0x68
    then some 3600
    else if c == 0x64
    then some 86400
    else none

abbrev pub times : ℕ → Option ℕ → Option ℕ
times n none = none
times n (some unit) = some (n * unit)

-- the digits after the first, with the count so far, and the unit
unfoldable pub since_from : ℕ → List ℕ → Option ℕ
since_from count [] = none
since_from count (c ∷ []) = times count (unit_seconds c)
since_from count (c ∷ d ∷ rest) =
    let next = since_from (count * 10 + (c - 0x30)) (d ∷ rest) in if is_digit c then next else none

-- `timedelta(seconds=...)`, which raises `OverflowError` from 999999999 days and a day on
abbrev pub timedelta : Option ℕ → Option ℕ
timedelta none = none
timedelta (some seconds) = if leb seconds 86399999999999 then some seconds else none

-- `parse_since`; none where it raises
unfoldable pub parse_since : List ℕ → Option ℕ
parse_since [] = none
parse_since (c ∷ rest) =
    if leb 0x31 c && leb c 0x39 then timedelta (since_from (c - 0x30) rest) else none

since_from-digits_text :
    (n : ℕ) (ds : List ℕ) (c : ℕ)
    → All (λ d. d ≤ 9) ds
    → since_from n (digits_text ds ++ (c ∷ [])) ≡ times (decimal_from n ds) (unit_seconds c)
unfolding since_from
since_from-digits_text n [] c h = refl
since_from-digits_text n (d ∷ []) c h = rw (is_digit_char d h.0, char_value d) refl
since_from-digits_text n (d ∷ e ∷ ds) c h =
    rw (is_digit_char d h.0, char_value d) (since_from-digits_text (n * 10 + d) (e ∷ ds) c h.1)

-- The units of a duration, with their seconds: second, minute, hour and day.
abbrev pub IsUnit : ℕ → ℕ → Type 0
IsUnit c seconds =
    ((c ≡ b's') × (seconds ≡ 1))
    ⊎ (((c ≡ b'm') × (seconds ≡ 60))
        ⊎ (((c ≡ b'h') × (seconds ≡ 60 * 60)) ⊎ ((c ≡ b'd') × (seconds ≡ 24 * 60 * 60))))

unit_seconds_iff : (c seconds : ℕ) → (unit_seconds c ≡ some seconds) ↔ IsUnit c seconds
unit_seconds_iff c seconds = (
  λ h. ground (arith, h),
  λ h. elim h [
    | inl s ↦ ground (arith, s)
    | inr (inl m) ↦ ground (arith, m)
    | inr (inr (inl h')) ↦ ground (arith, h')
    | inr (inr (inr d)) ↦ ground (arith, d)
  ],
)

parse_since-digits_text :
    (d : ℕ) (ds : List ℕ) (c : ℕ)
    → 1 ≤ d
    → All (λ d. d ≤ 9) (d ∷ ds)
    → parse_since (digits_text (d ∷ ds) ++ (c ∷ []))
      ≡ timedelta (times (decimal_from d ds) (unit_seconds c))
unfolding parse_since
parse_since-digits_text d ds c pos h =
    let first : (leb 0x31 (0x30 + d) && leb (0x30 + d) 0x39) ≡ true = ground (arith, h.0) in
    rw (first, char_value d) (ap timedelta (since_from-digits_text d ds c h.1))

timed_iff :
    (count n : ℕ) (o : Option ℕ)
    → (timedelta (times count o) ≡ some n)
      ↔ ((unit : ℕ) × (o ≡ some unit) × (n ≡ count * unit) × (n < 1000000000 * 24 * 60 * 60))
timed_iff count n none = (λ h. absurd (ground (arith, h)), λ h. absurd (ground (arith, h.1)))
timed_iff count n (some unit) = (
  λ h. (unit, refl, ground (arith, h), ground (arith, h)),
  λ h.
      let same : h.0 ≡ unit = ground (arith, h.1) in
      let product : n ≡ count * unit = h.2 ∙ ap (λ u. count * u) same in
      ground (arith, product, h.3),
)

-- A decimal number without a leading zero and a last character read as `n` seconds exactly when the
-- character is one of the units s, m, h and d, `n` is that number of the unit's seconds, and `n` is
-- less than the 10 ^ 9 days that `timedelta` holds. So it does not read with any other last
-- character.
pub parse_since-digits_text_iff :
    (d : ℕ) (ds : List ℕ) (c n : ℕ)
    → 1 ≤ d
    → All (λ d. d ≤ 9) (d ∷ ds)
    → (parse_since (digits_text (d ∷ ds) ++ (c ∷ [])) ≡ some n) ↔ (
        (unit : ℕ) × IsUnit c unit
        × (n ≡ decimal_from d ds * unit)
        × (n < 1000000000 * 24 * 60 * 60))
parse_since-digits_text_iff d ds c n pos h =
    let (to, from) = timed_iff (decimal_from d ds) n (unit_seconds c) in
    rw (parse_since-digits_text d ds c pos h) (
      (λ e. let (unit, u, m, b) = to e in (unit, (unit_seconds_iff c unit).0 u, m, b)),
      (λ w. from (w.0, (unit_seconds_iff c w.0).1 w.1, w.2, w.3)),
    )
