-- ===== src/Examples/Indexes.antt =====
-- Index rows of a table, and the theorems on them.
use gocubrid.Prelude.{ℕ, pos, ◌≡◌, refl, true, false, List, [], ◌∷◌, map}
use gocubrid.Exec.{ok}
use gocubrid.Bytes.{Bytes, same_bytes}
use gocubrid.Value.{Value}
use gocubrid.Session.Rows.{Row, is_zero}
use gocubrid.Session.Schema.{schema_int, schema_string, unqualify_name, after_dot}
use gocubrid.Session.Schema.Drain.Visits.{visit_all}
use gocubrid.Session.Schema.Listings.{KeyColumn, need_width, need_int}
use gocubrid.Session.Schema.Indexes.{
  Grouping, no_groups, constraint_row, place_of, group_of, add_column, is_unique, key_order,
  with_columns, sort_stable, insert_stable, own_columns, merged,
}
use gocubrid.Session.Schema.Indexes.Grouped.{infos_of, cols_of, place_in, Distinct}
use gocubrid.Session.Schema.Indexes.Agrees.{described, constraint_row-infos_of}
use gocubrid.Session.Schema.Indexes.Primary.{IsPrimaryAt, merged-primary}

-- A row of a unique index "i" on two columns, the second one first.
abbrev index_row : ℕ → ℕ → Row
index_row name order =
    Value.int16 (pos 0)
    ∷ Value.string (105 ∷ [])
    ∷ Value.string (name ∷ [])
    ∷ Value.null
    ∷ Value.null
    ∷ Value.int16 (pos 0)
    ∷ Value.int16 (pos order)
    ∷ []

abbrev index_rows : List Row
index_rows = index_row 98 2 ∷ index_row 97 1 ∷ []

abbrev groups : Grouping
groups = record {
  out = record { name = 105 ∷ []; unique = true; columns = []; is_primary = false } ∷ [];
  idx_cols =
      (record { name = 98 ∷ []; order = pos 2 } ∷ record { name = 97 ∷ []; order = pos 1 } ∷ [])
      ∷ [];
  by_name = (105 ∷ [], 0) ∷ [];
}

grouped : visit_all constraint_row index_rows no_groups ≡ ok groups
unfolding constraint_row need_width need_int schema_int schema_string place_of group_of add_column
    is_unique key_order same_bytes is_zero
grouped = refl

constraint_row-infos_of_example :
    (with_columns groups.out groups.idx_cols
      ≡ map (described (cols_of index_rows)) (infos_of index_rows))
    × Distinct (infos_of index_rows)
    × ((name : Bytes) → place_of name groups.by_name ≡ place_in name (infos_of index_rows))
constraint_row-infos_of_example = constraint_row-infos_of index_rows groups grouped

-- The key of the table "t".
abbrev key : KeyColumn
key = record { table = 116 ∷ []; column = 97 ∷ []; key_name = 112 ∷ []; seq = pos 1 }

abbrev pk : List KeyColumn
pk = key ∷ record key { table = 117 ∷ [] } ∷ []

own : sort_stable (λ c. c.seq) (own_columns (116 ∷ []) pk) ≡ key ∷ []
unfolding own_columns same_bytes unqualify_name after_dot sort_stable insert_stable
own = refl

merged-primary_example :
    IsPrimaryAt (112 ∷ []) (merged (116 ∷ []) groups pk) × Distinct (merged (116 ∷ []) groups pk)
merged-primary_example = merged-primary (116 ∷ []) index_rows groups pk key [] grouped own
