-- ===== src/Session/Schema/Indexes/Agrees.antt =====
-- The groups that the loop builds are the groups of the description.
use gocubrid.Prelude.{
  ℤ, ◌≡◌, refl, ap, sym, subst, ◌∙◌, Bool, true, false, List, [], ◌∷◌, ◌++◌, map, Option, none,
  some, append_assoc, append-nil, if◌then◌else◌,
}
use gocubrid.Errors.{Error, Family, bad_schema_value}
use gocubrid.Exec.{Result, ok, err, bind-ok}
use gocubrid.Exec.Returns.{ok-injective}
use gocubrid.Bytes.{Bytes}
use gocubrid.Value.{Value}
use gocubrid.Session.Rows.{Row}
use gocubrid.Session.Schema.{schema_int}
use gocubrid.Session.Schema.Drain.Visits.{visit_all}
use gocubrid.Session.Schema.Listings.{cell, is_set, int_or_zero, need_int, need_width}
use gocubrid.Session.Schema.Indexes.{
  IndexInfo, KeyCol, Grouping, no_groups, place_of, group_of, add_column, constraint_row,
  with_columns, key_names,
}
use gocubrid.Session.Schema.Indexes.Grouped.{row_name, cols_of, place_in, infos_of, Distinct}
use gocubrid.Session.Schema.Indexes.Steps.{Grouped, no_groups-Grouped, grouped_by, row-Grouped}

some-ok :
    (family : Family) (o : Option ℤ) (n : ℤ)
    → elim o [ some m ↦ ok m | none ↦ err (bad_schema_value family) ] ≡ ok n
    → n ≡ int_or_zero o
some-ok family (some m) n h = sym (ok-injective h)
some-ok family none n h = absurd (cc)

need_int-ok :
    (family : Family) (v : Value) (n : ℤ)
    → need_int family v ≡ ok n
    → n ≡ int_or_zero (schema_int v)
unfolding need_int
need_int-ok family v n h = some-ok family (schema_int v) n h

wide-ok :
    (b : Bool) (e : Error) (r : Result Grouping) (g : Grouping)
    → (if b then err e else r) ≡ ok g
    → r ≡ ok g
wide-ok true e r g h = absurd (cc)
wide-ok false e r g h = h

constraint_row-Grouped :
    (rows : List Row) (row : Row) (g g' : Grouping)
    → Grouped rows g
    → constraint_row row g ≡ ok g'
    → Grouped (rows ++ row ∷ []) g'
unfolding constraint_row need_width
constraint_row-Grouped rows row g g' h e =
    let place = place_of (row_name row) g.by_name in
    let step : ℤ → Grouping =
      λ typ. add_column row (group_of (row_name row) typ (is_set (cell row 5)) place g) in
    let (typ, got, same) =
      bind-ok (need_int Family.constraint (cell row 0)) (λ typ. ok (step typ))
        (wide-ok _ _ _ g' e) in
    let typ_is = need_int-ok Family.constraint (cell row 0) typ got in
    let whole : grouped_by row place g ≡ g' = ap step (sym typ_is) ∙ ok-injective same in
    subst (Grouped (rows ++ row ∷ [])) whole
      (row-Grouped rows row g place h (sym (h.placed (row_name row))))

rows-Grouped :
    (seen rows : List Row) (g g' : Grouping)
    → Grouped seen g
    → visit_all constraint_row rows g ≡ ok g'
    → Grouped (seen ++ rows) g'
rows-Grouped seen [] g g' h e =
    subst (Grouped (seen ++ [])) (ok-injective e)
      (subst (λ t. Grouped t g) (sym (append-nil seen)) h)
rows-Grouped seen (row ∷ rows) g g' h e =
    let (g1, got, more) = bind-ok (constraint_row row g) (visit_all constraint_row rows) e in
    subst (λ t. Grouped t g') (append_assoc seen (row ∷ []) rows)
      (rows-Grouped (seen ++ row ∷ []) rows g1 g' (constraint_row-Grouped seen row g g1 h got) more)

-- An index with its columns.
abbrev pub described : (Bytes → List KeyCol) → IndexInfo → IndexInfo
described f x = record x { columns = key_names (f x.name) }

with_columns-map :
    (f : Bytes → List KeyCol) (xs : List IndexInfo)
    → with_columns xs (map (λ x. f x.name) xs) ≡ map (described f) xs
unfolding with_columns
with_columns-map f [] = refl
with_columns-map f (x ∷ xs) = ap (λ t. described f x ∷ t) (with_columns-map f xs)

-- If every constraint row is accepted, the indexes are those of the description: one for each name,
-- in the order of their first rows, which give the kind; its columns are those of the rows of that
-- name, by their key order and for equal orders as they came. No name is listed twice, and the map
-- places each name where it is listed.
pub constraint_row-infos_of :
    (rows : List Row) (g : Grouping)
    → visit_all constraint_row rows no_groups ≡ ok g
    → (with_columns g.out g.idx_cols ≡ map (described (cols_of rows)) (infos_of rows))
      × Distinct (infos_of rows)
      × ((name : Bytes) → place_of name g.by_name ≡ place_in name (infos_of rows))
constraint_row-infos_of rows g e =
    let h = rows-Grouped [] rows no_groups g no_groups-Grouped e in
    (
      ap (with_columns g.out) h.columns
          ∙ with_columns-map (cols_of rows) g.out
          ∙ ap (map (described (cols_of rows))) h.infos,
      subst Distinct h.infos h.distinct,
      λ name. h.placed name ∙ ap (place_in name) h.infos,
    )
