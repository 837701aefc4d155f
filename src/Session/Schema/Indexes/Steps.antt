-- ===== src/Session/Schema/Indexes/Steps.antt =====
-- One more constraint row: the groups stay those of the description.
use gocubrid.Prelude.{
  ℕ, ◌≡◌, refl, ap, sym, ◌∙◌, false, Bool-cases, inl, inr, List, [], ◌∷◌, ◌++◌, length, length-map,
  get_or, set, map, Option, none, some, if◌then◌else◌,
}
use gocubrid.Bytes.{Bytes, same_bytes, same_bytes_iff}
use gocubrid.Session.Rows.{Row}
use gocubrid.Session.Schema.{schema_int}
use gocubrid.Session.Schema.Listings.{cell, is_set, int_or_zero}
use gocubrid.Session.Schema.Indexes.{Grouping, no_groups, place_of, group_of, add_column}
use gocubrid.Session.Schema.Indexes.Grouped.{
  row_name, col_of, add_col, cols_of, cols_from-snoc, place_in, unless_placed, info_of, add_info,
  infos_of, infos_from-snoc, Distinct,
}
use gocubrid.Session.Schema.Indexes.Places.{
  same_bytes_refl, same_bytes_comm, map-absent, map-placed, set-end, get_or-end, map-ext,
  map-append, or_last, or_last-false, none-or_last, place_in-snoc, Distinct-snoc,
}

-- The groups after some rows.
pub record Grouped (rows : List Row) (g : Grouping) : Type 0 where
  pub infos : g.out ≡ infos_of rows
  pub columns : g.idx_cols ≡ map (λ x. cols_of rows x.name) g.out
  pub placed : (name : Bytes) → place_of name g.by_name ≡ place_in name g.out
  pub distinct : Distinct g.out
  pub absent : (name : Bytes) → place_in name g.out ≡ none → cols_of rows name ≡ []

pub no_groups-Grouped : Grouped [] no_groups
no_groups-Grouped = record {
  infos = refl;
  columns = refl;
  placed = λ name. unfold place_of in refl;
  distinct = tt;
  absent = λ name h. refl;
}

-- The row's own index, as the row describes it.
abbrev pub grouped_by : Row → Option ℕ → Grouping → Grouping
grouped_by row p g =
    add_column row
      (group_of (row_name row) (int_or_zero (schema_int (cell row 0))) (is_set (cell row 5)) p g)

infos-snoc :
    (rows : List Row) (row : Row) (g : Grouping) (p : Option ℕ)
    → Grouped rows g
    → place_in (row_name row) g.out ≡ p
    → infos_of (rows ++ row ∷ []) ≡ unless_placed p row g.out
infos-snoc rows row g p h e =
    infos_from-snoc [] rows row
    ∙ ap (add_info row) (sym h.infos)
    ∙ ap (λ q. unless_placed q row g.out) e

absent_name :
    (row : Row) (g : Grouping) (i : ℕ) (name : Bytes)
    → place_in (row_name row) g.out ≡ some i
    → place_in name g.out ≡ none
    → same_bytes name (row_name row) ≡ false
absent_name row g i name e h = elim (Bool-cases (same_bytes name (row_name row))) [
  | inl same ↦
      let eq = (same_bytes_iff name (row_name row)).0 same in
      absurd (let both : some i ≡ none = sym e ∙ ap (λ n. place_in n g.out) (sym eq) ∙ h in cc)
  | inr other ↦ other
]

cols-snoc :
    (rows : List Row) (row : Row) (name : Bytes)
    → same_bytes name (row_name row) ≡ false
    → cols_of (rows ++ row ∷ []) name ≡ cols_of rows name
cols-snoc rows row name h = cols_from-snoc [] name rows row ∙ rw (h) refl

known-Grouped :
    (rows : List Row) (row : Row) (g : Grouping) (i : ℕ)
    → Grouped rows g
    → place_in (row_name row) g.out ≡ some i
    → Grouped (rows ++ row ∷ []) (grouped_by row (some i) g)
unfolding group_of add_column
known-Grouped rows row g i h e = record {
  infos = sym (infos-snoc rows row g (some i) h e);
  columns =
      ap (λ cols. set cols i (get_or cols i [] ++ col_of row (length (get_or cols i [])) ∷ []))
        h.columns
      ∙ sym (map-placed row (cols_of rows) g.out i h.distinct e)
      ∙ sym (map-ext _ _ g.out (λ x. cols_from-snoc [] x.name rows row));
  placed = h.placed;
  distinct = h.distinct;
  absent = λ name a. cols-snoc rows row name (absent_name row g i name e a) ∙ h.absent name a;
}

-- A row whose name is not placed: its columns so far are none, and it opens an index.
opened-columns :
    (rows : List Row) (row : Row) (g : Grouping)
    → Grouped rows g
    → place_in (row_name row) g.out ≡ none
    → map (λ x. cols_of (rows ++ row ∷ []) x.name) (g.out ++ info_of row ∷ [])
      ≡ g.idx_cols ++ (col_of row 0 ∷ []) ∷ []
opened-columns rows row g h e =
    let own : cols_of (rows ++ row ∷ []) (row_name row) ≡ col_of row 0 ∷ [] =
      cols_from-snoc [] (row_name row) rows row
      ∙ rw (h.absent (row_name row) e, same_bytes_refl (row_name row)) refl in
    let old : map (λ x. cols_of (rows ++ row ∷ []) x.name) g.out ≡ g.idx_cols =
      map-ext _ (λ x. add_col x.name row (cols_of rows x.name)) g.out
        (λ x. cols_from-snoc [] x.name rows row)
      ∙ map-absent row (cols_of rows) g.out e
      ∙ sym h.columns in
    map-append (λ x. cols_of (rows ++ row ∷ []) x.name) g.out (info_of row ∷ [])
    ∙ ap (λ t. t ++ cols_of (rows ++ row ∷ []) (row_name row) ∷ []) old
    ∙ ap (λ t. g.idx_cols ++ t ∷ []) own

added-columns :
    (rows : List Row) (row : Row) (g : Grouping)
    → Grouped rows g
    → let cols = get_or (g.idx_cols ++ [] ∷ []) (length g.out) [] in
      set (g.idx_cols ++ [] ∷ []) (length g.out) (cols ++ col_of row (length cols) ∷ [])
      ≡ g.idx_cols ++ (col_of row 0 ∷ []) ∷ []
added-columns rows row g h =
    let size : length g.out ≡ length g.idx_cols =
      sym (ap length h.columns ∙ length-map (λ x. cols_of rows x.name) g.out) in
    rw (size, get_or-end g.idx_cols [] []) (set-end g.idx_cols [] (col_of row 0 ∷ []))

place_of-new :
    (g : Grouping) (name n : Bytes) (rest : Option ℕ)
    → place_in name g.out ≡ none
    → rest ≡ place_in n g.out
    → (if same_bytes name n then some (length g.out) else rest)
      ≡ or_last (place_in n g.out) (same_bytes name n) (length g.out)
place_of-new g name n rest e p = elim (Bool-cases (same_bytes name n)) [
  | inl same ↦
      let eq = (same_bytes_iff name n).0 same in
      let gone : place_in n g.out ≡ none = ap (λ m. place_in m g.out) (sym eq) ∙ e in
      rw (same, gone) refl
  | inr other ↦ simp (other, p) (or_last-false (place_in n g.out) (length g.out))
]

new-Grouped :
    (rows : List Row) (row : Row) (g : Grouping)
    → Grouped rows g
    → place_in (row_name row) g.out ≡ none
    → Grouped (rows ++ row ∷ []) (grouped_by row none g)
unfolding group_of add_column place_of
new-Grouped rows row g h e = record {
  infos = sym (infos-snoc rows row g none h e);
  columns = added-columns rows row g h ∙ sym (opened-columns rows row g h e);
  placed = λ name.
      place_of-new g (row_name row) name (place_of name g.by_name) e (h.placed name)
      ∙ sym (place_in-snoc name g.out (info_of row));
  distinct = Distinct-snoc g.out (info_of row) h.distinct e;
  absent = λ name a.
      let (old, other) =
        none-or_last (place_in name g.out) (same_bytes (row_name row) name) (length g.out)
          (sym (place_in-snoc name g.out (info_of row)) ∙ a) in
      cols-snoc rows row name (same_bytes_comm name (row_name row) ∙ other) ∙ h.absent name old;
}

pub row-Grouped :
    (rows : List Row) (row : Row) (g : Grouping) (p : Option ℕ)
    → Grouped rows g
    → place_in (row_name row) g.out ≡ p
    → Grouped (rows ++ row ∷ []) (grouped_by row p g)
row-Grouped rows row g (some i) h e = known-Grouped rows row g i h e
row-Grouped rows row g none h e = new-Grouped rows row g h e
