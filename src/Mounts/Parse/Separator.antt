-- ===== src/Mounts/Parse/Separator.antt =====
-- collect/mounts.py: a line is partitioned at its first separator.
use mathlib.Core.Path.{ap₂}
use watchdirs.Prelude.{
  ℕ, length, ◌≡◌, refl, sym, ap, ◌∙◌, true, false, Option, none, some, [], ◌∷◌, ◌++◌, arith,
  Bool-cases, inl, inr,
}
use watchdirs.Prelude.Bytes.{Bytes, starts_with, starts_with-split, starts_with-append}
use watchdirs.Mounts.Parse.{field_separator, behind, drop_three, partition}

-- the separator stands nowhere in a text
abbrev pub LacksSeparator : Bytes → Type 0
LacksSeparator b = (l r : Bytes) → ¬ (b ≡ l ++ (field_separator ++ r))

-- the two sides of the first separator: it stands nowhere before
abbrev pub IsFirst : Bytes → Bytes × Bytes → Type 0
IsFirst b (left, right) =
    (b ≡ left ++ (field_separator ++ right))
    × ((l r : Bytes) → b ≡ l ++ (field_separator ++ r) → (t : Bytes) × (l ≡ left ++ t))

abbrev pub IsPartition : Bytes → Option (Bytes × Bytes) → Type 0
IsPartition b none = LacksSeparator b
IsPartition b (some sides) = IsFirst b sides

not_here : (b r : Bytes) → starts_with b field_separator ≡ false → ¬ (b ≡ field_separator ++ r)
not_here b r h e =
    let here = ap (λ x. starts_with x field_separator) e ∙ starts_with-append field_separator r in
    ground (arith, h, here)

tail : Bytes → Bytes
tail [] = []
tail (c ∷ cs) = cs

behind-IsPartition :
    (c : ℕ) (cs : Bytes) (o : Option (Bytes × Bytes))
    → starts_with (c ∷ cs) field_separator ≡ false
    → IsPartition cs o
    → IsPartition (c ∷ cs) (behind (c ∷ []) o)
unfolding tail
behind-IsPartition c cs none h k = cases
  where
    cases : LacksSeparator (c ∷ cs)
    cases [] r e = not_here (c ∷ cs) r h e
    cases (d ∷ l) r e = k l r (ap tail e)
behind-IsPartition c cs (some (left, right)) h k = (ap (λ x. c ∷ x) k.0, cases)
  where
    cases :
        (l r : Bytes) → c ∷ cs ≡ l ++ (field_separator ++ r) → (t : Bytes) × (l ≡ (c ∷ left) ++ t)
    cases [] r e = absurd (not_here (c ∷ cs) r h e)
    cases (d ∷ l) r e =
        let (t, q) = k.1 l r (ap tail e) in
        let same : c ≡ d = ground (arith, e) in (t, ap₂ ◌∷◌ (sym same) q)

here-IsPartition : (b : Bytes) → starts_with b field_separator ≡ true → IsFirst b ([], drop_three b)
here-IsPartition b h =
    let (s, e) = starts_with-split b field_separator h in
    (e ∙ ap (λ r. field_separator ++ r) (sym (ap drop_three e)), λ l r _. (l, refl))

pub partition-IsPartition : (b : Bytes) → IsPartition b (partition b)
unfolding partition
partition-IsPartition [] = cases
  where
    cases : LacksSeparator []
    cases [] r e = ground (arith, ap (length {A = ℕ}) e)
    cases (d ∷ l) r e = ground (arith, ap (length {A = ℕ}) e)
partition-IsPartition (c ∷ cs) =
    let ih = partition-IsPartition cs in
    elim (Bool-cases (starts_with (c ∷ cs) field_separator)) [
      | inl here ↦ rw here (here-IsPartition (c ∷ cs) here)
      | inr other ↦ rw other (behind-IsPartition c cs (partition cs) other ih)
    ]
