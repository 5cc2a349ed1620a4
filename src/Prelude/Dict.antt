-- ===== src/Prelude/Dict.antt =====
-- Python's `dict`: an association list in insertion order, over keys with a Boolean equality.
use watchdirs.Prelude.Tests.{◌==◌, ==_iff, if◌then◌else◌}
use watchdirs.Prelude.Bytes.{Bytes, bytes_eq, bytes_eq_iff}
use Prim.Native.Nat.{ℕ}
use Prim.Native.String.{String}
use text.Mathlib.Text.{◌==◌ as str_eq}
use text.Mathlib.TextEquality.{eq_iff}
use mathlib.Core.Path.{◌≡◌, refl}
use mathlib.Core.Logic.{◌↔◌}
use mathlib.Core.Bool.{Bool, true}
use mathlib.Core.Option.{Option, none, some}
use mathlib.Core.List.{List, [], ◌∷◌}
use native.Mathlib.Omega.{arith}

pub record Eq {ℓ} (A : Type ℓ) : Type ℓ where
  pub beq : A → A → Bool
  pub beq_iff : (a b : A) → (beq a b ≡ true) ↔ (a ≡ b)

instance abbrev pub nat_eq : Eq ℕ
nat_eq = record { beq = ◌==◌; beq_iff = ==_iff }

instance abbrev pub string_eq : Eq String
string_eq = record { beq = str_eq; beq_iff = eq_iff }

instance abbrev pub bytes_eq_instance : Eq Bytes
bytes_eq_instance = record { beq = bytes_eq; beq_iff = bytes_eq_iff }

-- the last element, or a default
abbrev pub last_or {ℓ} : {A : Type ℓ} → Option A → List A → Option A
last_or o [] = o
last_or o (v ∷ vs) = last_or (some v) vs

module _ {ℓ κ} {K : Type ℓ} {V : Type κ} ⦃e : Eq K⦄ where
  -- `d.get(k)`
  unfoldable pub lookup : K → List (K × V) → Option V
  lookup k [] = none
  lookup k ((j, v) ∷ d) = if e.beq j k then some v else lookup k d

  -- `d[k] = v`: a key that is there keeps its place.
  unfoldable pub insert : K → V → List (K × V) → List (K × V)
  insert k v [] = (k, v) ∷ []
  insert k v ((j, w) ∷ d) = if e.beq j k then (j, v) ∷ d else (j, w) ∷ insert k v d

  unfoldable pub insert_all : List (K × V) → List (K × V) → List (K × V)
  insert_all d [] = d
  insert_all d ((k, v) ∷ rows) = insert_all (insert k v d) rows

  -- `{k: v for k, v in rows}`
  unfoldable pub of_rows : List (K × V) → List (K × V)
  unfolding insert_all
  of_rows rows = insert_all [] rows

  -- No key stands twice.
  abbrev pub DistinctKeys : List (K × V) → Type κ
  DistinctKeys [] = Unit
  DistinctKeys ((k, v) ∷ d) = (lookup k d ≡ none) × DistinctKeys d

  pub lookup-insert :
      (k j : K) (v : V) (d : List (K × V))
      → lookup j (insert k v d) ≡ (if e.beq k j then some v else lookup j d)
  unfolding lookup insert
  lookup-insert k j v [] = refl
  lookup-insert k j v ((i, w) ∷ d) = ground (
    arith,
    e.beq_iff k j,
    e.beq_iff i k,
    e.beq_iff i j,
    e.beq_iff k i,
    e.beq_iff j k,
    lookup-insert k j v d,
  )

  pub insert-DistinctKeys :
      (k : K) (v : V) (d : List (K × V)) → DistinctKeys d → DistinctKeys (insert k v d)
  unfolding insert lookup
  insert-DistinctKeys k v [] h = (refl, tt)
  insert-DistinctKeys k v ((i, w) ∷ d) h =
      ground (arith, e.beq_iff k i, e.beq_iff i k, lookup-insert k i v d, insert-DistinctKeys k v d)

  insert_all-DistinctKeys :
      (d rows : List (K × V)) → DistinctKeys d → DistinctKeys (insert_all d rows)
  unfolding insert_all
  insert_all-DistinctKeys d [] h = h
  insert_all-DistinctKeys d ((k, v) ∷ rows) h =
      insert_all-DistinctKeys (insert k v d) rows (insert-DistinctKeys k v d h)

  pub of_rows-DistinctKeys : (rows : List (K × V)) → DistinctKeys (of_rows rows)
  unfolding of_rows
  of_rows-DistinctKeys rows = insert_all-DistinctKeys [] rows tt

  -- the values of the rows with a key
  abbrev pub values_of : K → List (K × V) → List V
  values_of k [] = []
  values_of k ((j, v) ∷ rows) = if e.beq j k then v ∷ values_of k rows else values_of k rows

  lookup-insert_all :
      (k : K) (d rows : List (K × V))
      → lookup k (insert_all d rows) ≡ last_or (lookup k d) (values_of k rows)
  unfolding insert_all lookup
  lookup-insert_all k d [] = refl
  lookup-insert_all k d ((j, v) ∷ rows) =
      ground (arith, lookup-insert_all k (insert j v d) rows, lookup-insert j k v d)

  -- The last row with a key wins.
  pub lookup-of_rows :
      (k : K) (rows : List (K × V)) → lookup k (of_rows rows) ≡ last_or none (values_of k rows)
  unfolding of_rows lookup
  lookup-of_rows k rows = lookup-insert_all k [] rows
