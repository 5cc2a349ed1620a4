-- ===== src/Prelude/Sorting.antt =====
-- What the stable sort of the lists gives: an order in which no element precedes a smaller one.
use Prim.Native.Nat.{◌+◌}
use mathlib.Core.Path.{◌≡◌, refl, sym, subst}
use mathlib.Core.Logic.{inl, inr}
use mathlib.Core.Bool.{Bool, true, false}
use mathlib.Core.List.{List, [], ◌∷◌, ◌++◌}
use mathlib.Core.Option.{Option, none, some}
use native.Mathlib.Omega.{arith}
use watchdirs.Prelude.Tests.{if◌then◌else◌, Bool-cases, Option-cases}
use watchdirs.Prelude.Lists.{length, All, Member, All-map, insert_sorted, sorted, All-insert_sorted}

module _ {ℓ} {A : Type ℓ} where
  -- all but the last, and the last, of a list that starts with the element
  abbrev pub init_of : A → List A → List A
  init_of x [] = []
  init_of x (y ∷ ys) = x ∷ init_of y ys

  abbrev pub last_of : A → List A → A
  last_of x [] = x
  last_of x (y ∷ ys) = last_of y ys

  pub init_of-last_of : (x : A) (xs : List A) → init_of x xs ++ (last_of x xs ∷ []) ≡ x ∷ xs
  init_of-last_of x [] = refl
  init_of-last_of x (y ∷ ys) = rw (init_of-last_of y ys) refl

  pub All-init_of {κ} :
      (P : A → Type κ) (x : A) (xs : List A)
      → All P (init_of x xs)
      → P (last_of x xs)
      → All P (x ∷ xs)
  All-init_of P x [] h p = (p, tt)
  All-init_of P x (y ∷ ys) h p = (h.0, All-init_of P y ys h.1 p)

  pub All-of-init {κ} :
      (P : A → Type κ) (x : A) (xs : List A) → All P (x ∷ xs) → All P (init_of x xs)
  All-of-init P x [] h = tt
  All-of-init P x (y ∷ ys) h = (h.0, All-of-init P y ys h.1)

  pub last_of-Member : (x : A) (xs : List A) → Member (last_of x xs) (x ∷ xs)
  last_of-Member x [] = inl refl
  last_of-Member x (y ∷ ys) = inr (last_of-Member y ys)

  pub init_of-Member : (a x : A) (xs : List A) → Member a (init_of x xs) → Member a (x ∷ xs)
  init_of-Member a x [] here = elim here [ ]
  init_of-Member a x (y ∷ ys) (inl e) = inl e
  init_of-Member a x (y ∷ ys) (inr there) = inr (init_of-Member a y ys there)

  -- `[x for x in xs if p(x)][-1]`, or none where that list is empty
  abbrev pub last_where : (A → Bool) → List A → Option A
  last_where p [] = none
  last_where p (x ∷ xs) = elim (last_where p xs) [
    | some y ↦ some y
    | none ↦ if p x then some x else none
  ]

  pub last_where-none :
      (p : A → Bool) (xs : List A) → last_where p xs ≡ none → All (λ x. p x ≡ false) xs
  last_where-none p [] h = tt
  last_where-none p (x ∷ xs) h = ground (arith, last_where-none p xs)

  pub last_where-Member :
      (p : A → Bool) (xs : List A) (b : A) → last_where p xs ≡ some b → Member b xs × (p b ≡ true)
  last_where-Member p [] b h = ground arith
  last_where-Member p (x ∷ xs) b h = elim (Option-cases (last_where p xs)) [
    | inl e ↦ elim (Bool-cases (p x)) [
      | inl px ↦ (inl (ground arith), ground arith)
      | inr px ↦ absurd (ground arith)
    ]
    | inr (y, e) ↦
        let (place, holds) = last_where-Member p xs b (ground arith) in (inr place, holds)
  ]

  pub All-at {κ} : (P : A → Type κ) (xs : List A) (a : A) → All P xs → Member a xs → P a
  All-at P [] a h place = elim place [ ]
  All-at P (x ∷ xs) a h (inl e) = subst P (sym e) h.0
  All-at P (x ∷ xs) a h (inr place) = All-at P xs a h.1 place

module _ {ℓ} {A : Type ℓ} (lt : A → A → Bool) where
  -- no element is smaller than one before it
  abbrev pub IsSorted : List A → Type 0
  IsSorted [] = Unit
  IsSorted (x ∷ xs) = All (λ y. lt y x ≡ false) xs × IsSorted xs

  pub insert_sorted-Member :
      (a b : A) (xs : List A) → Member a (insert_sorted lt b xs) → Member a (b ∷ xs)
  insert_sorted-Member a b [] h = h
  insert_sorted-Member a b (x ∷ xs) h = elim (Bool-cases (lt x b)) [
    | inl e ↦ elim (rw e at h) [
      | inl here ↦ inr (inl here)
      | inr there ↦ elim (insert_sorted-Member a b xs there) [
        | inl same ↦ inl same
        | inr deep ↦ inr (inr deep)
      ]
    ]
    | inr e ↦ rw e at h
  ]

  length-insert_sorted : (b : A) (xs : List A) → length (insert_sorted lt b xs) ≡ length xs + 1
  length-insert_sorted b [] = refl
  length-insert_sorted b (x ∷ xs) = ground (arith, length-insert_sorted b xs)

  pub length-sorted : (xs : List A) → length (sorted lt xs) ≡ length xs
  length-sorted [] = refl
  length-sorted (x ∷ xs) = omega (arith, length-insert_sorted x (sorted lt xs), length-sorted xs)

  pub sorted-Member : (a : A) (xs : List A) → Member a (sorted lt xs) → Member a xs
  sorted-Member a [] h = h
  sorted-Member a (x ∷ xs) h = elim (insert_sorted-Member a x (sorted lt xs) h) [
    | inl here ↦ inl here
    | inr there ↦ inr (sorted-Member a xs there)
  ]

  pub All-of_insert_sorted {κ} :
      (P : A → Type κ) (b : A) (xs : List A) → All P (insert_sorted lt b xs) → P b × All P xs
  All-of_insert_sorted P b [] h = h
  All-of_insert_sorted P b (x ∷ xs) h = elim (Bool-cases (lt x b)) [
    | inl e ↦
        let h' = rw e at h in
        let rest = All-of_insert_sorted P b xs h'.1 in (rest.0, (h'.0, rest.1))
    | inr e ↦ rw e at h
  ]

  pub All-of_sorted {κ} : (P : A → Type κ) (xs : List A) → All P (sorted lt xs) → All P xs
  All-of_sorted P [] h = h
  All-of_sorted P (x ∷ xs) h =
      let both = All-of_insert_sorted P x (sorted lt xs) h in (both.0, All-of_sorted P xs both.1)

  module _ (asym : (a b : A) → lt a b ≡ true → lt b a ≡ false)
      (trans : (a b c : A) → lt b a ≡ false → lt c b ≡ false → lt c a ≡ false) where
    insert_sorted-IsSorted : (a : A) (xs : List A) → IsSorted xs → IsSorted (insert_sorted lt a xs)
    insert_sorted-IsSorted a [] h = (tt, tt)
    insert_sorted-IsSorted a (x ∷ xs) h = elim (Bool-cases (lt x a)) [
      | inl e ↦ rw e (
        All-insert_sorted lt (λ y. lt y x ≡ false) a xs (asym x a e) h.0,
        insert_sorted-IsSorted a xs h.1,
      )
      | inr e ↦ rw e ((e, All-map (λ y le. trans a x y e le) xs h.0), h)
    ]

    pub sorted-IsSorted : (xs : List A) → IsSorted (sorted lt xs)
    sorted-IsSorted [] = tt
    sorted-IsSorted (x ∷ xs) = insert_sorted-IsSorted x (sorted lt xs) (sorted-IsSorted xs)

    pub last_where-greatest :
        (p : A → Bool) (xs : List A) (b : A)
        → IsSorted xs
        → last_where p xs ≡ some b
        → All (λ u. p u ≡ true → lt b u ≡ false) xs
    last_where-greatest p [] b h e = tt
    last_where-greatest p (x ∷ xs) b h e = elim (Option-cases (last_where p xs)) [
      | inl f ↦
          let same : x ≡ b = ground arith in
          (
            λ px. ground (arith, asym b b),
            All-map (λ u no yes_. absurd (ground arith)) xs (last_where-none p xs f),
          )
      | inr (y, f) ↦
          let found : last_where p xs ≡ some b = ground arith in
          (
            λ px. All-at (λ y. lt y x ≡ false) xs b h.0 (last_where-Member p xs b found).0,
            last_where-greatest p xs b h.1 found,
          )
    ]

    pub last_of-greatest :
        (x : A) (xs : List A) → IsSorted (x ∷ xs) → All (λ u. lt (last_of x xs) u ≡ false) (x ∷ xs)
    last_of-greatest x [] h = (ground (arith, asym x x), tt)
    last_of-greatest x (y ∷ ys) h = (
      All-at (λ y. lt y x ≡ false) (y ∷ ys) (last_of y ys) h.0 (last_of-Member y ys),
      last_of-greatest y ys h.1,
    )

    pub IsSorted-init_of : (x : A) (xs : List A) → IsSorted (x ∷ xs) → IsSorted (init_of x xs)
    IsSorted-init_of x [] h = tt
    IsSorted-init_of x (y ∷ ys) h =
        (All-of-init (λ y. lt y x ≡ false) y ys h.0, IsSorted-init_of y ys h.1)
