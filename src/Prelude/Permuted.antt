-- ===== src/Prelude/Permuted.antt =====
-- Sorting only reorders.
use mathlib.Core.List.{Permᴰ}
use mathlib.Core.List.Permᴰ
use mathlib.Core.Path.{refl}
use mathlib.Core.Logic.{inl, inr}
use mathlib.Core.Bool.{Bool}
use mathlib.Core.List.{List, [], ◌∷◌}
use watchdirs.Prelude.Tests.{Bool-cases}
use watchdirs.Prelude.Lists.{insert_sorted, sorted}

insert_sorted-Perm {ℓ} :
    {A : Type ℓ} (lt : A → A → Bool) (a : A) (bs : List A) → Permᴰ (insert_sorted lt a bs) (a ∷ bs)
insert_sorted-Perm lt a [] = Permᴰ.refl (a ∷ [])
insert_sorted-Perm lt a (b ∷ bs) = elim (Bool-cases (lt b a)) [
  | inr here ↦ rw here (Permᴰ.refl (a ∷ b ∷ bs))
  | inl later ↦
      rw later (Permᴰ.trans (Permᴰ.cons refl (insert_sorted-Perm lt a bs)) (Permᴰ.swap refl refl))
]

pub sorted-Perm {ℓ} : {A : Type ℓ} (lt : A → A → Bool) (as' : List A) → Permᴰ (sorted lt as') as'
sorted-Perm lt [] = Permᴰ.nil
sorted-Perm lt (a ∷ as') =
    Permᴰ.trans (insert_sorted-Perm lt a (sorted lt as')) (Permᴰ.cons refl (sorted-Perm lt as'))
