-- ===== src/Retention/Best.antt =====
-- The representatives of the buckets: a dictionary that keeps the greatest value of each key.
use watchdirs.Prelude.{
  ℕ, ◌≡◌, refl, Bool, true, false, ◌&&◌, ◌||◌, Option, none, some, List, [], ◌∷◌, arith, ltb, ◌==◌,
  if◌then◌else◌, Bool-cases, inl, inr, All, Member, any, ◌↔◌, subst,
}
use watchdirs.Prelude.Dict.{
  Eq, lookup, insert, lookup-insert, values_of, DistinctKeys, insert-DistinctKeys,
}

-- `(finished_at, snapshot_id)`, the time as an instant
pub record Representative : Type 0 where
  pub at : ℕ
  pub id : ℕ

-- `representative > previous`, on tuples
abbrev pub later : Representative → Representative → Bool
later a b = ltb b.at a.at || (b.at == a.at && ltb b.id a.id)

-- the greatest of some values
abbrev pub greatest : Option Representative → List Representative → Option Representative
greatest best [] = best
greatest none (v ∷ vs) = greatest (some v) vs
greatest (some b) (v ∷ vs) = greatest (some (if later v b then v else b)) vs

-- `v` is among the values, and none of them is later.
pub record IsGreatest (v : Representative) (vs : List Representative) : Type 0 where
  pub member : Member v vs
  pub top : All (λ w. later w v ≡ false) vs

later_trans : (a b c : Representative) → later a b ≡ false → later b c ≡ false → later a c ≡ false
later_trans a b c h k = ground arith

later_antisym : (a b : Representative) → later a b ≡ false → later b a ≡ false → a ≡ b
later_antisym a b h k = ground arith

All-later :
    (v u : Representative) (ws : List Representative)
    → later v u ≡ false
    → All (λ w. later w v ≡ false) ws
    → All (λ w. later w u ≡ false) ws
All-later v u [] h hs = tt
All-later v u (w ∷ ws) h hs = (later_trans w v u hs.0 h, All-later v u ws h hs.1)

-- a fold from `b` ends with the greatest of `b` and the values
greatest-some :
    (b : Representative) (vs : List Representative)
    → (v : Representative) × (greatest (some b) vs ≡ some v) × IsGreatest v (b ∷ vs)
greatest-some b [] = (b, refl, record { member = inl refl; top = (ground arith, tt) })
greatest-some b (w ∷ ws) = elim (Bool-cases (later w b)) [
  | inl up ↦
      let (v, e, g) = greatest-some w ws in
      (
        v,
        rw up e,
        record {
          member = inr g.member;
          top = (later_trans b w v (ground arith) g.top.0, (g.top.0, g.top.1));
        },
      )
  | inr down ↦
      let (v, e, g) = greatest-some b ws in
      (
        v,
        rw down e,
        record {
          member = skip v g.member;
          top = (g.top.0, (later_trans w b v down g.top.0, g.top.1));
        },
      )
]
  where
    skip : (v : Representative) → Member v (b ∷ ws) → Member v (b ∷ w ∷ ws)
    skip v (inl h) = inl h
    skip v (inr h) = inr (inr h)

top_of :
    (v w : Representative) (ws : List Representative)
    → Member w ws
    → All (λ u. later u v ≡ false) ws
    → later w v ≡ false
top_of v w [] m h = elim m [ ]
top_of v w (u ∷ us) (inl e) h = rw e h.0
top_of v w (u ∷ us) (inr m) h = top_of v w us m h.1

IsGreatest-unique :
    (u v : Representative) (vs : List Representative) → IsGreatest u vs → IsGreatest v vs → u ≡ v
IsGreatest-unique u v vs g h =
    later_antisym u v (top_of v u vs g.member h.top) (top_of u v vs h.member g.top)

pub greatest_iff :
    (v : Representative) (vs : List Representative) → (greatest none vs ≡ some v) ↔ IsGreatest v vs
greatest_iff v [] = (λ e. absurd (ground arith), λ g. elim g.member [ ])
greatest_iff v (w ∷ ws) =
    let (u, e, g) = greatest-some w ws in
    (
      λ h. let same : u ≡ v = ground arith in subst (λ x. IsGreatest x (w ∷ ws)) same g,
      λ h. rw (IsGreatest-unique v u (w ∷ ws) h g) e,
    )

module _ {ℓ} {K : Type ℓ} ⦃e : Eq K⦄ where
  -- `previous = d.get(k); if previous is None or v > previous: d[k] = v`
  unfoldable pub insert_best :
      K → Representative → List (K × Representative) → List (K × Representative)
  insert_best k v d = elim (lookup k d) [
    | none ↦ insert k v d
    | some previous ↦ if later v previous then insert k v d else d
  ]

  -- the same for a list of entries
  unfoldable pub best_all :
      List (K × Representative) → List (K × Representative) → List (K × Representative)
  best_all d [] = d
  best_all d ((k, v) ∷ entries) = best_all (insert_best k v d) entries

  insert_best-DistinctKeys :
      (k : K) (v : Representative) (d : List (K × Representative))
      → DistinctKeys d
      → DistinctKeys (insert_best k v d)
  unfolding insert_best
  insert_best-DistinctKeys k v d h = ground (arith, insert-DistinctKeys k v d h)

  pub best_all-DistinctKeys :
      (d entries : List (K × Representative)) → DistinctKeys d → DistinctKeys (best_all d entries)
  unfolding best_all
  best_all-DistinctKeys d [] h = h
  best_all-DistinctKeys d ((k, v) ∷ entries) h =
      best_all-DistinctKeys (insert_best k v d) entries (insert_best-DistinctKeys k v d h)

  lookup-insert_best :
      (k j : K) (v : Representative) (d : List (K × Representative))
      → lookup j (insert_best k v d)
        ≡ (if e.beq k j then greatest (lookup j d) (v ∷ []) else lookup j d)
  unfolding insert_best
  lookup-insert_best k j v d = ground (arith, lookup-insert k j v d, e.beq_iff k j)

  pub lookup-best_all :
      (j : K) (d entries : List (K × Representative))
      → lookup j (best_all d entries) ≡ greatest (lookup j d) (values_of j entries)
  unfolding best_all
  lookup-best_all j d [] = refl
  lookup-best_all j d ((k, v) ∷ entries) =
      ground (arith, lookup-best_all j (insert_best k v d) entries, lookup-insert_best k j v d)

  -- `id` is the id of some value of the dictionary
  abbrev pub has_id : ℕ → List (K × Representative) → Bool
  has_id id = any (λ kv. kv.1.id == id)

  pub lookup-has_id :
      (k : K) (v : Representative) (d : List (K × Representative))
      → lookup k d ≡ some v
      → has_id v.id d ≡ true
  unfolding lookup
  lookup-has_id k v [] h = cc
  lookup-has_id k v ((j, w) ∷ d) h = ground (arith, lookup-has_id k v d)

  pub has_id-lookup :
      (id : ℕ) (d : List (K × Representative))
      → DistinctKeys d
      → has_id id d ≡ true
      → (k : K) × (v : Representative) × (lookup k d ≡ some v) × (v.id ≡ id)
  unfolding lookup
  has_id-lookup id [] u h = absurd (ground arith)
  has_id-lookup id ((j, w) ∷ d) u h = elim (Bool-cases (w.id == id)) [
    | inl here ↦ (j, w, ground (arith, e.beq_iff j j), ground arith)
    | inr there ↦
        let (k, v, found, same) = has_id-lookup id d u.1 (ground arith) in
        (k, v, ground (arith, e.beq_iff j k), same)
  ]
