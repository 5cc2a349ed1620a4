-- ===== src/Prelude/Members.antt =====
-- The elements of lists that are filtered, mapped, joined and sorted.
use mathlib.Core.Path.{◌≡◌, refl, sym, ap, subst}
use mathlib.Core.Logic.{◌⊎◌, inl, inr}
use mathlib.Core.Bool.{Bool, true}
use mathlib.Core.List.{List, [], ◌∷◌, ◌++◌, map}
use watchdirs.Prelude.Tests.{Bool-cases}
use watchdirs.Prelude.Lists.{Member, filter, insert_sorted, sorted}

pub Member-filter {ℓ} :
    {A : Type ℓ} (p : A → Bool) (x : A) (xs : List A)
    → Member x (filter p xs)
    → Member x xs × (p x ≡ true)
Member-filter p x [] h = elim h [ ]
Member-filter p x (y ∷ ys) h = elim (Bool-cases (p y)) [
  | inl e ↦ elim (rw e at h) [
    | inl same ↦ (inl same, subst (λ z. p z ≡ true) (sym same) e)
    | inr there ↦ let m = Member-filter p x ys there in (inr m.0, m.1)
  ]
  | inr e ↦ let m = Member-filter p x ys (rw e at h) in (inr m.0, m.1)
]

pub Member-map {ℓ κ} :
    {A : Type ℓ} {B : Type κ} (f : A → B) (x : B) (xs : List A)
    → Member x (map f xs)
    → (y : A) × Member y xs × (x ≡ f y)
Member-map f x [] h = elim h [ ]
Member-map f x (y ∷ ys) (inl e) = (y, inl refl, e)
Member-map f x (y ∷ ys) (inr there) =
    let (z, place, e) = Member-map f x ys there in (z, inr place, e)

pub Member-append {ℓ} :
    {A : Type ℓ} (x : A) (xs ys : List A) → Member x (xs ++ ys) → Member x xs ⊎ Member x ys
Member-append x [] ys h = inr h
Member-append x (y ∷ xs) ys (inl e) = inl (inl e)
Member-append x (y ∷ xs) ys (inr there) = elim (Member-append x xs ys there) [
  | inl left_ ↦ inl (inr left_)
  | inr right_ ↦ inr right_
]

-- the other way
pub filter-Member {ℓ} :
    {A : Type ℓ} (p : A → Bool) (x : A) (xs : List A)
    → Member x xs
    → p x ≡ true
    → Member x (filter p xs)
filter-Member p x [] h e = elim h [ ]
filter-Member p x (y ∷ ys) (inl same) e =
    let py : p y ≡ true = subst (λ z. p z ≡ true) same e in rw py (inl same)
filter-Member p x (y ∷ ys) (inr there) e = elim (Bool-cases (p y)) [
  | inl py ↦ rw py (inr (filter-Member p x ys there e))
  | inr py ↦ rw py (filter-Member p x ys there e)
]

pub map-Member {ℓ κ} :
    {A : Type ℓ} {B : Type κ} (f : A → B) (x : A) (xs : List A)
    → Member x xs
    → Member (f x) (map f xs)
map-Member f x [] h = elim h [ ]
map-Member f x (y ∷ ys) (inl same) = inl (ap f same)
map-Member f x (y ∷ ys) (inr there) = inr (map-Member f x ys there)

pub append-Member {ℓ} :
    {A : Type ℓ} (x : A) (xs ys : List A) → Member x xs ⊎ Member x ys → Member x (xs ++ ys)
append-Member x [] ys (inl none_) = elim none_ [ ]
append-Member x [] ys (inr there) = there
append-Member x (y ∷ xs) ys (inl (inl same)) = inl same
append-Member x (y ∷ xs) ys (inl (inr there)) = inr (append-Member x xs ys (inl there))
append-Member x (y ∷ xs) ys (inr there) = inr (append-Member x xs ys (inr there))

Member-insert_sorted {ℓ} :
    {A : Type ℓ} (lt : A → A → Bool) (x a : A) (xs : List A)
    → Member x (a ∷ xs)
    → Member x (insert_sorted lt a xs)
Member-insert_sorted lt x a [] h = h
Member-insert_sorted lt x a (y ∷ ys) h = elim (Bool-cases (lt y a)) [
  | inr e ↦ rw e h
  | inl e ↦ rw e (elim h [
    | inl same ↦ inr (Member-insert_sorted lt x a ys (inl same))
    | inr (inl same) ↦ inl same
    | inr (inr there) ↦ inr (Member-insert_sorted lt x a ys (inr there))
  ])
]

pub Member-sorted {ℓ} :
    {A : Type ℓ} (lt : A → A → Bool) (x : A) (xs : List A) → Member x xs → Member x (sorted lt xs)
Member-sorted lt x [] h = h
Member-sorted lt x (y ∷ ys) (inl same) = Member-insert_sorted lt x y (sorted lt ys) (inl same)
Member-sorted lt x (y ∷ ys) (inr there) =
    Member-insert_sorted lt x y (sorted lt ys) (inr (Member-sorted lt x ys there))

insert_sorted-Member {ℓ} :
    {A : Type ℓ} (lt : A → A → Bool) (x a : A) (xs : List A)
    → Member x (insert_sorted lt a xs)
    → Member x (a ∷ xs)
insert_sorted-Member lt x a [] h = h
insert_sorted-Member lt x a (y ∷ ys) h = elim (Bool-cases (lt y a)) [
  | inr e ↦ rw e at h
  | inl e ↦ elim (rw e at h) [
    | inl same ↦ inr (inl same)
    | inr there ↦ elim (insert_sorted-Member lt x a ys there) [
      | inl same ↦ inl same
      | inr more ↦ inr (inr more)
    ]
  ]
]

pub sorted-Member {ℓ} :
    {A : Type ℓ} (lt : A → A → Bool) (x : A) (xs : List A) → Member x (sorted lt xs) → Member x xs
sorted-Member lt x [] h = h
sorted-Member lt x (y ∷ ys) h = elim (insert_sorted-Member lt x y (sorted lt ys) h) [
  | inl same ↦ inl same
  | inr there ↦ inr (sorted-Member lt x ys there)
]
