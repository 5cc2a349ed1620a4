-- ===== src/Mounts/Unescape.antt =====
-- `unescape_mount_path` of collect/mounts.py: the octal escapes of /proc/self/mountinfo.
use watchdirs.Prelude.{
  ℕ, ◌+◌, ◌-◌, ◌*◌, ◌/◌, ◌%◌, ◌<◌, ◌≡◌, ◌≢◌, refl, Bool, true, ◌&&◌, [], ◌∷◌, arith, ltb, leb, ◌==◌,
  if◌then◌else◌, Bool-cases, inl, inr, All, ap,
}
use watchdirs.Prelude.Bytes.{Bytes}

-- `bytearray.append` raises `ValueError` above 255.
pub data Unescaped : Type 0 where
  ok : Bytes → Unescaped
  value_error : Unescaped

abbrev pub prepend : ℕ → Unescaped → Unescaped
prepend c (ok rest) = ok (c ∷ rest)
prepend c value_error = value_error

abbrev pub append_byte : ℕ → Unescaped → Unescaped
append_byte c rest = if ltb c 256 then prepend c rest else value_error

-- `MIN_OCTAL_DIGIT <= digit <= MAX_OCTAL_DIGIT`
abbrev pub is_octal_digit : ℕ → Bool
is_octal_digit d = leb 0x30 d && leb d 0x37

-- `int(candidate.decode("ascii"), 8)`
abbrev pub octal_value : ℕ → ℕ → ℕ → ℕ
octal_value a b d = (a - 0x30) * 64 + (b - 0x30) * 8 + (d - 0x30)

-- The loop over the index; `index + 3 < len(raw)` is the pattern of the first clause.
pub unescape_mount_path : Bytes → Unescaped
unescape_mount_path [] = ok []
unescape_mount_path (c ∷ x ∷ y ∷ z ∷ rest) =
    let escaped = append_byte (octal_value x y z) (unescape_mount_path rest) in
    let plain = prepend c (unescape_mount_path (x ∷ y ∷ z ∷ rest)) in
    if c == 0x5c && (is_octal_digit x && (is_octal_digit y && is_octal_digit z))
    then escaped
    else plain
unescape_mount_path (c ∷ rest) = prepend c (unescape_mount_path rest)

-- What the kernel writes: each byte of a set as a backslash and three octal digits.
unfoldable pub escape : (ℕ → Bool) → Bytes → Bytes
escape special [] = []
escape special (c ∷ cs) =
    if special c
    then 0x5c ∷ (0x30 + c / 64) ∷ (0x30 + c / 8 % 8) ∷ (0x30 + c % 8) ∷ escape special cs
    else c ∷ escape special cs

unescape_plain :
    (c : ℕ) (rest : Bytes)
    → c ≢ 0x5c
    → unescape_mount_path (c ∷ rest) ≡ prepend c (unescape_mount_path rest)
unfolding unescape_mount_path
unescape_plain c [] h = refl
unescape_plain c (x ∷ []) h = refl
unescape_plain c (x ∷ y ∷ []) h = refl
unescape_plain c (x ∷ y ∷ z ∷ rest) h = ground arith

unescape_escaped :
    (c : ℕ) (rest : Bytes)
    → c < 256
    → unescape_mount_path (0x5c ∷ (0x30 + c / 64) ∷ (0x30 + c / 8 % 8) ∷ (0x30 + c % 8) ∷ rest)
      ≡ prepend c (unescape_mount_path rest)
unfolding unescape_mount_path
unescape_escaped c rest h =
    let value : octal_value (0x30 + c / 64) (0x30 + c / 8 % 8) (0x30 + c % 8) ≡ c = omega arith in
    ground arith

-- A path of bytes that the kernel escapes is read back unchanged, whatever set of bytes it escapes,
-- if the backslash is among them.
pub unescape-escape :
    (special : ℕ → Bool) (path : Bytes)
    → special 0x5c ≡ true
    → All (λ c. c < 256) path
    → unescape_mount_path (escape special path) ≡ ok path
unfolding escape
unescape-escape special [] h bytes = unfold unescape_mount_path in refl
unescape-escape special (c ∷ cs) h bytes =
    let ih = unescape-escape special cs h bytes.1 in
    elim (Bool-cases (special c)) [
      | inl yes_ ↦ ground (arith, unescape_escaped c (escape special cs) bytes.0)
      | inr no_ ↦
          let plain = unescape_plain c (escape special cs) (λ e. ground (arith, ap special e)) in
          ground arith
    ]
