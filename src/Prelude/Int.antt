-- ===== src/Prelude/Int.antt =====
-- Python's integers where they may be negative: differences, sums, order, and sums over a list.
use Prim.Native.Nat.{ℕ, suc, ◌+◌, ◌-◌}
use mathlib.Core.Path.{◌≡◌, refl}
use mathlib.Core.Bool.{Bool, true, false}
use mathlib.Core.List.{List, [], ◌∷◌, ◌++◌}
use native.Mathlib.Omega.{arith}
use watchdirs.Prelude.Tests.{ltb, leb, if◌then◌else◌}
use watchdirs.Prelude.Lists.{insert_sorted, sorted, filter}

-- `negsuc n` is -(n + 1)
pub data ℤ : Type 0 where
  pos : ℕ → ℤ
  negsuc : ℕ → ℤ

-- `a - b` of two numbers that are not negative
abbrev pub minus : ℕ → ℕ → ℤ
minus a b = if ltb a b then negsuc (b - a - 1) else pos (a - b)

-- an integer is the difference of its two parts
abbrev pub pos_part : ℤ → ℕ
pos_part (negsuc n) = 0
pos_part (pos n) = n

abbrev pub neg_part : ℤ → ℕ
neg_part (negsuc n) = suc n
neg_part (pos n) = 0

infixl 65 ◌+ℤ◌ ◌-ℤ◌
unfoldable pub ◌+ℤ◌ : ℤ → ℤ → ℤ
i +ℤ j = minus (pos_part i + pos_part j) (neg_part i + neg_part j)

unfoldable pub ◌-ℤ◌ : ℤ → ℤ → ℤ
i -ℤ j = minus (pos_part i + neg_part j) (neg_part i + pos_part j)

abbrev pub lt_int : ℤ → ℤ → Bool
lt_int i j = ltb (pos_part i + neg_part j) (pos_part j + neg_part i)

abbrev pub le_int : ℤ → ℤ → Bool
le_int i j = leb (pos_part i + neg_part j) (pos_part j + neg_part i)

-- With these `omega` reads sums and differences that stay shut.
pub +ℤ_parts :
    (i j : ℤ)
    → pos_part (i +ℤ j) + (neg_part i + neg_part j) ≡ neg_part (i +ℤ j) + (pos_part i + pos_part j)
unfolding ◌+ℤ◌
+ℤ_parts i j = ground arith

pub -ℤ_parts :
    (i j : ℤ)
    → pos_part (i -ℤ j) + (neg_part i + pos_part j) ≡ neg_part (i -ℤ j) + (pos_part i + neg_part j)
unfolding ◌-ℤ◌
-ℤ_parts i j = ground arith

pub eq_of_parts : (i j : ℤ) → pos_part i + neg_part j ≡ pos_part j + neg_part i → i ≡ j
eq_of_parts i j h = ground arith

pub ruleset int_laws = (arith, +ℤ_parts, -ℤ_parts, eq_of_parts)

pub +ℤ_assoc : (i j k : ℤ) → i +ℤ j +ℤ k ≡ i +ℤ (j +ℤ k)
+ℤ_assoc i j k = omega int_laws

pub +ℤ_swap : (i j k : ℤ) → i +ℤ (j +ℤ k) ≡ j +ℤ (i +ℤ k)
+ℤ_swap i j k = omega int_laws

pub zero_+ℤ : (i : ℤ) → pos 0 +ℤ i ≡ i
zero_+ℤ i = omega int_laws

pub lt_int_asym : (i j : ℤ) → lt_int i j ≡ true → lt_int j i ≡ false
lt_int_asym i j h = ground arith

pub lt_int_trans : (i j k : ℤ) → lt_int j i ≡ false → lt_int k j ≡ false → lt_int k i ≡ false
lt_int_trans i j k h l = ground arith

module _ {ℓ} {A : Type ℓ} (f : A → ℤ) where
  abbrev pub sum_int : List A → ℤ
  sum_int [] = pos 0
  sum_int (x ∷ xs) = f x +ℤ sum_int xs

  pub sum_int-append : (xs ys : List A) → sum_int (xs ++ ys) ≡ sum_int xs +ℤ sum_int ys
  sum_int-append [] ys = omega int_laws
  sum_int-append (x ∷ xs) ys =
      let ih = sum_int-append xs ys in rw (ih, +ℤ_assoc (f x) (sum_int xs) (sum_int ys)) refl

  sum_int-insert_sorted :
      (lt : A → A → Bool) (a : A) (xs : List A)
      → sum_int (insert_sorted lt a xs) ≡ f a +ℤ sum_int xs
  sum_int-insert_sorted lt a [] = refl
  sum_int-insert_sorted lt a (x ∷ xs) =
      ground (arith, sum_int-insert_sorted lt a xs, +ℤ_swap (f a) (f x) (sum_int xs))

  pub sum_int-sorted : (lt : A → A → Bool) (xs : List A) → sum_int (sorted lt xs) ≡ sum_int xs
  sum_int-sorted lt [] = refl
  sum_int-sorted lt (x ∷ xs) =
      ground (arith, sum_int-insert_sorted lt x (sorted lt xs), sum_int-sorted lt xs)

  -- a sum is the sum over those that pass a test and the sum over those that pass its opposite
  pub sum_int-filter :
      (p q : A → Bool)
      → ((a : A) → q a ≡ (if p a then false else true))
      → (xs : List A) → sum_int (filter p xs) +ℤ sum_int (filter q xs) ≡ sum_int xs
  sum_int-filter p q opposite [] = zero_+ℤ (pos 0)
  sum_int-filter p q opposite (x ∷ xs) = ground (
    arith,
    opposite x,
    sum_int-filter p q opposite xs,
    +ℤ_assoc (f x) (sum_int (filter p xs)) (sum_int (filter q xs)),
    +ℤ_swap (sum_int (filter p xs)) (f x) (sum_int (filter q xs)),
  )
