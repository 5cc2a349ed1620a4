-- ===== src/Prelude/Stable.antt =====
-- A stable sort of a list that is sorted by a second order: the second order breaks the ties.
use mathlib.Core.Path.{◌≡◌}
use mathlib.Core.Logic.{inl, inr}
use mathlib.Core.Bool.{Bool, true, false, ◌&&◌, ◌||◌, not}
use mathlib.Core.List.{List, [], ◌∷◌}
use native.Mathlib.Omega.{arith}
use watchdirs.Prelude.Tests.{Bool-cases}
use watchdirs.Prelude.Lists.{All, insert_sorted, sorted, All-insert_sorted, All-sorted}
use watchdirs.Prelude.Sorting.{IsSorted}

module _ {ℓ} {A : Type ℓ} (lt tie : A → A → Bool) where
  -- first by `lt`, then by `tie`
  abbrev pub then_by : A → A → Bool
  then_by a b = lt a b || (not (lt b a) && tie a b)

  module _ (asym : (a b : A) → lt a b ≡ true → lt b a ≡ false)
      (trans : (a b c : A) → lt b a ≡ false → lt c b ≡ false → lt c a ≡ false) where
    insert_sorted_stable :
        (a : A) (xs : List A)
        → All (λ y. tie y a ≡ false) xs
        → IsSorted then_by xs
        → IsSorted then_by (insert_sorted lt a xs)
    insert_sorted_stable a [] h s = (tt, tt)
    insert_sorted_stable a (x ∷ xs) h s = elim (Bool-cases (lt x a)) [
      | inl e ↦ rw e (
        All-insert_sorted lt (λ y. then_by y x ≡ false) a xs (ground (arith, asym x a e)) s.0,
        insert_sorted_stable a xs h.1 s.1,
      )
      | inr e ↦ rw e ((ground (arith, h.0), later a x xs e h.1 s.0), s)
    ]
      where
        later :
            (a x : A) (xs : List A)
            → lt x a ≡ false
            → All (λ y. tie y a ≡ false) xs
            → All (λ y. then_by y x ≡ false) xs
            → All (λ y. then_by y a ≡ false) xs
        later a x [] e h s = tt
        later a x (y ∷ ys) e h s = (ground (arith, h.0, s.0, trans a x y e), later a x ys e h.1 s.1)

    pub sorted_stable : (xs : List A) → IsSorted tie xs → IsSorted then_by (sorted lt xs)
    sorted_stable [] h = tt
    sorted_stable (x ∷ xs) h =
        insert_sorted_stable x (sorted lt xs) (All-sorted lt (λ y. tie y x ≡ false) xs h.0)
          (sorted_stable xs h.1)
