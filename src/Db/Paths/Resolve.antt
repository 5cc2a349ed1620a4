-- ===== src/Db/Paths/Resolve.antt =====
-- Resolving a path through the cache and the path table of db/migrations.py.
use watchdirs.Prelude.{
  ℕ, ◌≡◌, ◌≤◌, refl, none, some, List, [], ◌∷◌, ◌++◌, arith, ◌==◌, ==_iff, if◌then◌else◌,
  Option-cases, ◌∙◌, inl, inr, Bool-cases,
}
use watchdirs.Prelude.Bytes.{Bytes, bytes_eq, bytes_eq_iff}
use watchdirs.Prelude.Dict.{lookup, insert, lookup-insert, bytes_eq_instance}
use watchdirs.Db.Tables.{PathRow, next_id}
use watchdirs.Db.Paths.{id_of, path_of, Paths, resolve_path_id}

-- What the cache remembers is in the table.
pub record IsConsistent (t : Paths) : Type 0 where
  pub cached :
      (path : Bytes) (id : ℕ) → lookup path t.cache ≡ some id → path_of id t.rows ≡ some path

-- ids are unique, as the table's key makes them
abbrev pub UniqueIds : List PathRow → Type 0
UniqueIds [] = Unit
UniqueIds (r ∷ rows) = (path_of r.id rows ≡ none) × UniqueIds rows

below_next_id :
    (id : ℕ) (rows : List PathRow)
    → next_id (λ (r : PathRow). r.id) rows ≤ id
    → path_of id rows ≡ none
unfolding path_of
below_next_id id [] h = refl
below_next_id id (r ∷ rows) h = ground (arith, below_next_id id rows)

path_of-append :
    (id : ℕ) (rows : List PathRow) (r : PathRow)
    → path_of id (rows ++ r ∷ []) ≡ elim (path_of id rows) [
      | some path ↦ some path
      | none ↦ if r.id == id then some r.path else none
    ]
unfolding path_of
path_of-append id [] r = refl
path_of-append id (q ∷ rows) r = ground (arith, path_of-append id rows r)

id_of-path_of :
    (path : Bytes) (id : ℕ) (rows : List PathRow)
    → UniqueIds rows
    → id_of path rows ≡ some id
    → path_of id rows ≡ some path
unfolding id_of path_of
id_of-path_of path id [] u h = cc
id_of-path_of path id (r ∷ rows) u h =
    ground (arith, bytes_eq_iff r.path path, id_of-path_of path id rows, ==_iff r.id id)

UniqueIds-append :
    (rows : List PathRow) (r : PathRow)
    → UniqueIds rows
    → path_of r.id rows ≡ none
    → UniqueIds (rows ++ r ∷ [])
unfolding path_of
UniqueIds-append [] r u h = (refl, tt)
UniqueIds-append (q ∷ rows) r u h =
    ground (
      arith,
      UniqueIds-append rows r,
      path_of-append q.id rows r,
      ==_iff r.id q.id,
      ==_iff q.id r.id,
    )

-- The outcome of resolving a path.
pub record Resolved (t : Paths) (path : Bytes) (id : ℕ) (t' : Paths) : Type 0 where
  pub found : path_of id t'.rows ≡ some path
  pub kept : (j : ℕ) (q : Bytes) → path_of j t.rows ≡ some q → path_of j t'.rows ≡ some q
  pub consistent : IsConsistent t'
  pub unique : UniqueIds t'.rows

module _ (t : Paths) (path : Bytes) (c : IsConsistent t) (u : UniqueIds t.rows) where
  -- the table after an insert of the path
  abbrev grown : List PathRow
  grown = t.rows ++ record { id = next_id (λ (r : PathRow). r.id) t.rows; path = path } ∷ []

  fresh : path_of (next_id (λ (r : PathRow). r.id) t.rows) t.rows ≡ none
  fresh = below_next_id (next_id (λ (r : PathRow). r.id) t.rows) t.rows (omega arith)

  grown_keeps : (j : ℕ) (q : Bytes) → path_of j t.rows ≡ some q → path_of j grown ≡ some q
  grown_keeps j q h = path_of-append j t.rows _ ∙ rw h

  grown_has : path_of (next_id (λ (r : PathRow). r.id) t.rows) grown ≡ some path
  grown_has =
      path_of-append _ t.rows _
      ∙ rw fresh (
          ground (
            arith,
            ==_iff (next_id (λ (r : PathRow). r.id) t.rows)
                (next_id (λ (r : PathRow). r.id) t.rows),
          ))

  -- the cache may take any id that the table has for the path
  remembered :
      (id : ℕ) (rows : List PathRow)
      → path_of id rows ≡ some path
      → ((j : ℕ) (q : Bytes) → path_of j t.rows ≡ some q → path_of j rows ≡ some q)
      → IsConsistent (record { cache = insert path id t.cache; rows = rows })
  remembered id rows h keep = record {
    cached = λ q j e. elim (Bool-cases (bytes_eq path q)) [
      | inl same ↦ ground (arith, bytes_eq_iff path q, lookup-insert path q id t.cache)
      | inr ne ↦ keep j q (c.cached q j (ground (arith, lookup-insert path q id t.cache)))
    ];
  }

  pub resolve_path_id-Resolved :
      Resolved t path (resolve_path_id t path).0 (resolve_path_id t path).1
  unfolding resolve_path_id
  resolve_path_id-Resolved = elim (Option-cases (lookup path t.cache)) [
    | inr (id, hit) ↦
        rw (hit, resolve_path_id)
          (record { found = c.cached path id hit; kept = λ j q h. h; consistent = c; unique = u })
    | inl miss ↦ elim (Option-cases (id_of path t.rows)) [
      | inr (id, there) ↦
          let e = id_of-path_of path id t.rows u there in
          rw (miss, there, resolve_path_id)
            (record {
              found = e;
              kept = λ j q h. h;
              consistent = remembered id t.rows e (λ j q h. h);
              unique = u;
            })
      | inl absent ↦
          rw (miss, absent, resolve_path_id)
            (record {
              found = grown_has;
              kept = grown_keeps;
              consistent = remembered _ grown grown_has grown_keeps;
              unique = UniqueIds-append t.rows _ u fresh;
            })
    ]
  ]
