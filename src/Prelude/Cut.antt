-- ===== src/Prelude/Cut.antt =====
-- `xs[:n]` and what it leaves out.
use Prim.Native.Nat.{ℕ, zero, suc, ◌+◌, ◌≤◌, ◌<◌}
use mathlib.Core.Path.{◌≡◌, refl, ap}
use mathlib.Core.Logic.{◌↔◌}
use mathlib.Core.Bool.{true}
use mathlib.Core.List.{List, [], ◌∷◌, ◌++◌}
use native.Mathlib.Omega.{arith}
use watchdirs.Prelude.Tests.{ltb}
use watchdirs.Prelude.Lists.{length, take}

abbrev pub rest_after {ℓ} : {A : Type ℓ} → ℕ → List A → List A
rest_after zero xs = xs
rest_after (suc n) [] = []
rest_after (suc n) (x ∷ xs) = rest_after n xs

pub take-rest {ℓ} : {A : Type ℓ} (n : ℕ) (xs : List A) → take n xs ++ rest_after n xs ≡ xs
take-rest zero xs = refl
take-rest (suc n) [] = refl
take-rest (suc n) (x ∷ xs) = ap (λ r. x ∷ r) (take-rest n xs)

pub length-take {ℓ} :
    {A : Type ℓ} (n : ℕ) (xs : List A) → length (take n xs) + length (rest_after n xs) ≡ length xs
length-take zero xs = omega arith
length-take (suc n) [] = omega arith
length-take (suc n) (x ∷ xs) = omega (arith, length-take n xs)

-- what is left is empty unless the limit is reached
pub take_bounds {ℓ} :
    {A : Type ℓ} (n : ℕ) (xs : List A)
    → (length (take n xs) ≤ n) × ((ltb n (length xs) ≡ true) ↔ (0 < length (rest_after n xs)))
take_bounds zero [] = ground arith
take_bounds zero (x ∷ xs) = ground arith
take_bounds (suc n) [] = ground arith
take_bounds (suc n) (x ∷ xs) = let ih = take_bounds n xs in ground (arith, ih)
