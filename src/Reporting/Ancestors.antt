-- ===== src/Reporting/Ancestors.antt =====
-- `_parent_of` of reporting/frontier.py, and the paths that its loops walk through.
use watchdirs.Prelude.{
  ℕ, zero, suc, ◌+◌, ◌≡◌, ◌≤◌, ◌<◌, refl, ap, Bool, Option, none, some, List, [], ◌∷◌, ◌==◌,
  if◌then◌else◌, length, arith, Bool-cases, inl, inr, Option-cases,
}
use watchdirs.Prelude.Bytes.{Bytes, bytes_eq, path_separator}
use watchdirs.Prelude.Text.{rstrip}

abbrev pub is_slash : ℕ → Bool
is_slash c = c == b'/'

abbrev extend : ℕ → Option Bytes → Option Bytes
extend c (some head) = some (c ∷ head)
extend c none = if is_slash c then some [] else none

-- `rpartition(b"/")`: what stands before the last separator, none where there is none
abbrev pub head_of : Bytes → Option Bytes
head_of [] = none
head_of (c ∷ cs) = extend c (head_of cs)

abbrev root_if_empty : Option Bytes → Option Bytes
root_if_empty none = none
root_if_empty (some []) = some path_separator
root_if_empty (some (c ∷ cs)) = some (c ∷ cs)

-- `_parent_of`; the test for b"" is the first clause
unfoldable pub parent_of : Bytes → Option Bytes
parent_of [] = none
parent_of (c ∷ cs) =
    if bytes_eq (c ∷ cs) path_separator
    then none
    else root_if_empty (head_of (rstrip is_slash (c ∷ cs)))

-- the walk `while ancestor_path is not None`, on fuel
unfoldable pub ancestors_within : ℕ → Option Bytes → List Bytes
ancestors_within fuel none = []
ancestors_within zero (some p) = []
ancestors_within (suc fuel) (some p) = p ∷ ancestors_within fuel (parent_of p)

-- The ancestors of a path, the nearest first.
unfoldable pub ancestors : Bytes → List Bytes
ancestors path = ancestors_within (length path) (parent_of path)

length-rstrip-le : (b : Bytes) → length (rstrip is_slash b) ≤ length b
length-rstrip-le [] = omega arith
length-rstrip-le (c ∷ cs) = ground (arith, length-rstrip-le cs)

length-head_of : (b h : Bytes) → head_of b ≡ some h → length h < length b
length-head_of [] h e = ground arith
length-head_of (c ∷ cs) h e = elim (Option-cases (head_of cs)) [
  | inl f ↦ ground arith
  | inr (g, f) ↦ ground (arith, length-head_of cs g f)
]

root_if_empty_shorter :
    (o : Option Bytes) (n : ℕ) (q : Bytes)
    → 2 ≤ n
    → ((h : Bytes) → o ≡ some h → length h < n)
    → root_if_empty o ≡ some q
    → length q < n
root_if_empty_shorter none n q two h e = ground arith
root_if_empty_shorter (some []) n q two h e = ground arith
root_if_empty_shorter (some (c ∷ cs)) n q two h e = ground (arith, h (c ∷ cs) refl)

-- A parent is a shorter path.
pub parent_of_shorter : (p q : Bytes) → parent_of p ≡ some q → length q < length p
unfolding parent_of bytes_eq
parent_of_shorter [] q e = ground arith
parent_of_shorter (c ∷ []) q e = ground arith
parent_of_shorter (c ∷ d ∷ ds) q e =
    let stripped = rstrip is_slash (c ∷ d ∷ ds) in
    elim (Bool-cases (bytes_eq (c ∷ d ∷ ds) path_separator)) [
      | inl root ↦ ground arith
      | inr other ↦
          root_if_empty_shorter (head_of stripped) (length (c ∷ d ∷ ds)) q (omega arith)
            (λ h f. omega (arith, length-head_of stripped h f, length-rstrip-le (c ∷ d ∷ ds)))
            (rw other at e)
    ]

-- The fuel is enough: more of it gives no more ancestors.
pub ancestors_within_enough :
    (fuel more : ℕ) (o : Option Bytes)
    → ((p : Bytes) → o ≡ some p → length p < fuel)
    → ancestors_within (fuel + more) o ≡ ancestors_within fuel o
unfolding ancestors_within
ancestors_within_enough zero more none h = refl
ancestors_within_enough zero more (some p) h = absurd (omega (arith, h p refl))
ancestors_within_enough (suc fuel) more none h = refl
ancestors_within_enough (suc fuel) more (some p) h =
    let shorter : (q : Bytes) → parent_of p ≡ some q → length q < fuel =
      λ q e. omega (arith, h p refl, parent_of_shorter p q e) in
    let step : suc fuel + more ≡ suc (fuel + more) = omega arith in
    rw step (ap (λ r. p ∷ r) (ancestors_within_enough fuel more (parent_of p) shorter))

pub ancestors_complete :
    (path : Bytes) (more : ℕ)
    → ancestors_within (length path + more) (parent_of path) ≡ ancestors path
unfolding ancestors
ancestors_complete path more =
    ancestors_within_enough (length path) more (parent_of path) (parent_of_shorter path)
