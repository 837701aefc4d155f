-- ===== src/Session/Schema/Indexes/Grouped.antt =====
-- What `Indexes` makes of constraint rows, described without the map and the places: one index for
-- each name, in the order of their first rows, with the columns of the rows of that name.
use gocubrid.Prelude.{
  ℕ, suc, ◌≡◌, refl, List, [], ◌∷◌, ◌++◌, length, Option, none, some, if◌then◌else◌,
}
use gocubrid.Bytes.{Bytes, same_bytes}
use gocubrid.Session.Rows.{Row}
use gocubrid.Session.Schema.{schema_int, schema_string}
use gocubrid.Session.Schema.Listings.{cell, is_set, int_or_zero}
use gocubrid.Session.Schema.Indexes.{IndexInfo, KeyCol, is_unique, key_order}

abbrev pub row_name : Row → Bytes
row_name row = schema_string (cell row 1)

-- The index that the first row of a name gives, and the column that a row gives.
abbrev pub info_of : Row → IndexInfo
info_of row = record {
  name = row_name row;
  unique = is_unique (int_or_zero (schema_int (cell row 0)));
  columns = [];
  is_primary = is_set (cell row 5);
}

abbrev pub col_of : Row → ℕ → KeyCol
col_of row n = record { name = schema_string (cell row 2); order = key_order row n }

-- The columns of one index.
abbrev pub add_col : Bytes → Row → List KeyCol → List KeyCol
add_col name row cols =
    if same_bytes name (row_name row) then cols ++ col_of row (length cols) ∷ [] else cols

abbrev pub cols_from : List KeyCol → Bytes → List Row → List KeyCol
cols_from cols name [] = cols
cols_from cols name (row ∷ rows) = cols_from (add_col name row cols) name rows

abbrev pub cols_of : List Row → Bytes → List KeyCol
cols_of rows name = cols_from [] name rows

abbrev pub shifted : Option ℕ → Option ℕ
shifted (some i) = some (suc i)
shifted none = none

-- The place of a name among indexes.
abbrev pub place_in : Bytes → List IndexInfo → Option ℕ
place_in name [] = none
place_in name (x ∷ xs) = if same_bytes x.name name then some 0 else shifted (place_in name xs)

abbrev pub unless_placed : Option ℕ → Row → List IndexInfo → List IndexInfo
unless_placed (some i) row xs = xs
unless_placed none row xs = xs ++ info_of row ∷ []

abbrev pub add_info : Row → List IndexInfo → List IndexInfo
add_info row xs = unless_placed (place_in (row_name row) xs) row xs

abbrev pub infos_from : List IndexInfo → List Row → List IndexInfo
infos_from xs [] = xs
infos_from xs (row ∷ rows) = infos_from (add_info row xs) rows

abbrev pub infos_of : List Row → List IndexInfo
infos_of rows = infos_from [] rows

pub cols_from-snoc :
    (cols : List KeyCol) (name : Bytes) (rows : List Row) (row : Row)
    → cols_from cols name (rows ++ row ∷ []) ≡ add_col name row (cols_from cols name rows)
cols_from-snoc cols name [] row = refl
cols_from-snoc cols name (r ∷ rows) row = cols_from-snoc (add_col name r cols) name rows row

pub infos_from-snoc :
    (xs : List IndexInfo) (rows : List Row) (row : Row)
    → infos_from xs (rows ++ row ∷ []) ≡ add_info row (infos_from xs rows)
infos_from-snoc xs [] row = refl
infos_from-snoc xs (r ∷ rows) row = infos_from-snoc (add_info r xs) rows row

abbrev pub Distinct : List IndexInfo → Type 0
Distinct [] = Unit
Distinct (x ∷ xs) = (place_in x.name xs ≡ none) × Distinct xs
