-- ===== src/Session/Schema/Indexes/Primary.antt =====
-- The primary key among the indexes.
use gocubrid.Prelude.{
  ℕ, zero, suc, ◌≡◌, refl, ap, sym, ◌∙◌, true, List, [], ◌∷◌, map, Option, none, some, get_elem?,
  inl, inr, if◌then◌else◌,
}
use gocubrid.Exec.{ok}
use gocubrid.Bytes.{Bytes, same_bytes}
use gocubrid.Session.Rows.{Row}
use gocubrid.Session.Schema.Drain.Visits.{visit_all}
use gocubrid.Session.Schema.Listings.{KeyColumn}
use gocubrid.Session.Schema.Indexes.{
  IndexInfo, KeyCol, Grouping, no_groups, place_of, constraint_row, sort_stable, own_columns,
  mark_primary, place_primary, merge_primary, merged,
}
use gocubrid.Session.Schema.Indexes.Grouped.{place_in, shifted, infos_of, cols_of, Distinct}
use gocubrid.Session.Schema.Indexes.Places.{placed-cons, same_bytes_refl}
use gocubrid.Session.Schema.Indexes.Agrees.{described, constraint_row-infos_of}

-- The index at a place is the primary key, under a name.
abbrev pub IsPrimaryAt : Bytes → List IndexInfo → Type 0
IsPrimaryAt name xs =
    (i : ℕ) × (x : IndexInfo) × (get_elem? xs i ≡ some x)
    × (x.is_primary ≡ true)
    × (x.unique ≡ true)
    × (same_bytes x.name name ≡ true)

module _ (f : Bytes → List KeyCol) where
  place_in-described :
      (name : Bytes) (xs : List IndexInfo) → place_in name (map (described f) xs) ≡ place_in name xs
  place_in-described name [] = refl
  place_in-described name (x ∷ xs) =
      ap (λ p. if same_bytes x.name name then some 0 else shifted p) (place_in-described name xs)

  Distinct-described : (xs : List IndexInfo) → Distinct xs → Distinct (map (described f) xs)
  Distinct-described [] d = tt
  Distinct-described (x ∷ xs) d = (place_in-described x.name xs ∙ d.0, Distinct-described xs d.1)

place_in-mark_primary :
    (name : Bytes) (i : ℕ) (xs : List IndexInfo)
    → place_in name (mark_primary i xs) ≡ place_in name xs
unfolding mark_primary
place_in-mark_primary name i [] = refl
place_in-mark_primary name zero (x ∷ xs) = refl
place_in-mark_primary name (suc i) (x ∷ xs) =
    ap (λ p. if same_bytes x.name name then some 0 else shifted p) (place_in-mark_primary name i xs)

mark_primary-Distinct : (i : ℕ) (xs : List IndexInfo) → Distinct xs → Distinct (mark_primary i xs)
unfolding mark_primary
mark_primary-Distinct i [] d = tt
mark_primary-Distinct zero (x ∷ xs) d = d
mark_primary-Distinct (suc i) (x ∷ xs) d =
    (place_in-mark_primary x.name i xs ∙ d.0, mark_primary-Distinct i xs d.1)

mark_primary-IsPrimaryAt :
    (name : Bytes) (i : ℕ) (xs : List IndexInfo)
    → place_in name xs ≡ some i
    → IsPrimaryAt name (mark_primary i xs)
unfolding mark_primary
mark_primary-IsPrimaryAt name i [] h = absurd (cc)
mark_primary-IsPrimaryAt name i (x ∷ xs) h =
    elim (placed-cons (same_bytes x.name name) (place_in name xs) i h) [
      | inl (here, e) ↦
          rw (e) (0, record x { is_primary = true; unique = true }, refl, refl, refl, here)
      | inr (other, (j, p, e)) ↦
          let (k, y, at_k, p_y, u_y, n_y) = mark_primary-IsPrimaryAt name j xs p in
          rw (e) (suc k, y, at_k, p_y, u_y, n_y)
    ]

placed-primary :
    (pk : List KeyColumn) (name : Bytes) (p : Option ℕ) (xs : List IndexInfo)
    → place_in name xs ≡ p
    → Distinct xs
    → IsPrimaryAt name (place_primary pk name p xs) × Distinct (place_primary pk name p xs)
unfolding place_primary
placed-primary pk name (some i) xs h d =
    (mark_primary-IsPrimaryAt name i xs h, mark_primary-Distinct i xs d)
placed-primary pk name none xs h d = ((0, _, refl, refl, refl, same_bytes_refl name), (h, d))

-- If every constraint row is accepted and the table has key columns of its own, `Indexes` lists an
-- index under the name that its first key column gives, marked as primary and unique, and lists no
-- name twice.
pub merged-primary :
    (table : Bytes) (rows : List Row) (g : Grouping) (pk : List KeyColumn) (k : KeyColumn)
    (ks : List KeyColumn)
    → visit_all constraint_row rows no_groups ≡ ok g
    → sort_stable (λ c. c.seq) (own_columns table pk) ≡ k ∷ ks
    → IsPrimaryAt k.key_name (merged table g pk) × Distinct (merged table g pk)
unfolding merged merge_primary
merged-primary table rows g pk k ks e s =
    let (cols, d, places) = constraint_row-infos_of rows g e in
    let f = cols_of rows in
    let xs = map (described f) (infos_of rows) in
    let here = place_in-described f k.key_name (infos_of rows) ∙ sym (places k.key_name) in
    rw (s, cols)
      (placed-primary (k ∷ ks) k.key_name (place_of k.key_name g.by_name) xs here
        (Distinct-described f (infos_of rows) d))
