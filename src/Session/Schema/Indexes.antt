-- ===== src/Session/Schema/Indexes.antt =====
-- `Indexes` of cubrid/schema.go: constraint rows grouped by index name, and the primary key.
pub mod Grouped
pub mod Places
pub mod Steps
pub mod Agrees
pub mod Sorted
pub mod Primary
use gocubrid.Prelude.{
  ℕ, zero, suc, ℤ, pos, ◌+◌, Bool, true, false, ◌||◌, ◌&&◌, not, List, [], ◌∷◌, ◌++◌, length,
  get_or, set, map, Option, none, some, ltb, leb_ℤ, ltb_ℤ, is_neg, pos_part, ◌==◌, if◌then◌else◌,
}
use gocubrid.Errors.{Error, Family}
use gocubrid.Exec.{Result, ok, err, bind}
use gocubrid.Bytes.{Bytes, same_bytes}
use gocubrid.Value.{Value}
use gocubrid.Protocol.Codec.DateTime.{Zones}
use gocubrid.Session.Conn.{Conn}
use gocubrid.Session.Rows.{Rows, Row, is_zero}
use gocubrid.Session.Schema.{schema_info, schema_int, schema_string, unqualify_name}
use gocubrid.Session.Schema.Drain.{Loop}
use gocubrid.Session.Schema.Listings.{
  KeyColumn, cell, is_set, need_int, need_width, listed, primary_key,
}

pub record IndexInfo : Type 0 where
  pub name : Bytes
  pub unique : Bool
  pub columns : List Bytes
  pub is_primary : Bool

pub record KeyCol : Type 0 where
  pub name : Bytes
  pub order : ℤ

-- What the callback captures: the indexes so far, their columns, and the place of each name. The
-- map is an association list with its latest entry first.
pub record Grouping : Type 0 where
  pub out : List IndexInfo
  pub idx_cols : List (List KeyCol)
  pub by_name : List (Bytes × ℕ)

abbrev pub no_groups : Grouping
no_groups = record { out = []; idx_cols = []; by_name = [] }

unfoldable pub place_of : Bytes → List (Bytes × ℕ) → Option ℕ
place_of name [] = none
place_of name ((n, i) ∷ places) =
    let rest = place_of name places in if same_bytes n name then some i else rest

-- `typ == 0 || typ == 2`: UNIQUE and REVERSE UNIQUE.
unfoldable pub is_unique : ℤ → Bool
is_unique typ = not (is_neg typ) && ((pos_part typ == 0) || (pos_part typ == 2))

-- The place of a name, after a new index was added for a name not seen before.
unfoldable pub group_of : Bytes → ℤ → Bool → Option ℕ → Grouping → ℕ × Grouping
group_of name typ primary (some i) g = (i, g)
group_of name typ primary none g = (
  length g.out,
  record {
    out =
        g.out
        ++ record { name = name; unique = is_unique typ; columns = []; is_primary = primary } ∷ [];
    idx_cols = g.idx_cols ++ [] ∷ [];
    by_name = (name, length g.out) ∷ g.by_name;
  },
)

-- KEY_ORDER if the row carries it, else the position at which the column arrived.
unfoldable pub key_order : Row → ℕ → ℤ
key_order row arrived =
    if ltb 6 (length row)
    then elim (schema_int (cell row 6)) [ some v ↦ v | none ↦ pos arrived ]
    else pos arrived

unfoldable pub add_column : Row → ℕ × Grouping → Grouping
add_column row (i, g) =
    let cols = get_or g.idx_cols i [] in
    let col : KeyCol = record {
      name = schema_string (cell row 2);
      order = key_order row (length cols);
    } in
    record g { idx_cols = set g.idx_cols i (cols ++ col ∷ []) }

-- One constraint row.
unfoldable pub constraint_row : Row → Grouping → Result Grouping
constraint_row row g = need_width Family.constraint 6 row (
    bind (need_int Family.constraint (cell row 0)) (λ typ.
      let name = schema_string (cell row 1) in
      ok (add_column row (group_of name typ (is_set (cell row 5)) (place_of name g.by_name) g))))

-- `sort.SliceStable` by a key: each element goes before the first that is not smaller.
module _ {ℓ} {A : Type ℓ} (key : A → ℤ) where
  unfoldable pub insert_stable : A → List A → List A
  insert_stable x [] = x ∷ []
  insert_stable x (y ∷ ys) =
      let rest = insert_stable x ys in if ltb_ℤ (key y) (key x) then y ∷ rest else x ∷ y ∷ ys

  unfoldable pub sort_stable : List A → List A
  sort_stable [] = []
  sort_stable (x ∷ xs) = insert_stable x (sort_stable xs)

abbrev pub key_names : List KeyCol → List Bytes
key_names kcs = map (λ kc. kc.name) (sort_stable (λ kc. kc.order) kcs)

-- `out[i].Columns = cols`, for every index.
unfoldable pub with_columns : List IndexInfo → List (List KeyCol) → List IndexInfo
with_columns [] cols = []
with_columns (x ∷ xs) [] = x ∷ xs
with_columns (x ∷ xs) (kcs ∷ cols) = record x { columns = key_names kcs } ∷ with_columns xs cols

-- The key columns of the table itself: the request matched its name as a pattern.
unfoldable pub own_columns : Bytes → List KeyColumn → List KeyColumn
own_columns table [] = []
own_columns table (k ∷ ks) =
    let rest = own_columns table ks in
    if same_bytes k.table (unqualify_name table) then k ∷ rest else rest

-- `out[i].IsPrimary = true; out[i].Unique = true`
unfoldable pub mark_primary : ℕ → List IndexInfo → List IndexInfo
mark_primary i [] = []
mark_primary zero (x ∷ xs) = record x { is_primary = true; unique = true } ∷ xs
mark_primary (suc i) (x ∷ xs) = x ∷ mark_primary i xs

unfoldable pub place_primary : List KeyColumn → Bytes → Option ℕ → List IndexInfo → List IndexInfo
place_primary pk name (some i) out = mark_primary i out
place_primary pk name none out =
    record { name = name; unique = true; columns = map (λ k. k.column) pk; is_primary = true } ∷ out

-- The sorted key columns, merged into the indexes.
unfoldable pub merge_primary : List KeyColumn → List (Bytes × ℕ) → List IndexInfo → List IndexInfo
merge_primary [] places out = out
merge_primary (k ∷ ks) places out =
    place_primary (k ∷ ks) k.key_name (place_of k.key_name places) out

unfoldable pub merged : Bytes → Grouping → List KeyColumn → List IndexInfo
merged table g pk =
    merge_primary (sort_stable (λ k. k.seq) (own_columns table pk)) g.by_name
      (with_columns g.out g.idx_cols)

-- What one loop gave, and the next step over the connection.
abbrev pub and_then {ℓ κ} :
    {A : Type ℓ} {B : Type κ}
    → Option (Result A) × Conn
    → (A → Loop Conn B)
    → Option (Result B) × Conn
and_then (none, c) f = (none, c)
and_then (some (err e), c) f = (some (err e), c)
and_then (some (ok a), c) f = f a c

unfoldable pub indexes : Zones → Bytes → Loop Conn (List IndexInfo)
indexes z table c =
    and_then
      (listed z constraint_row no_groups (schema_info (pos 11) (some table) none false false c))
      (λ g c'. and_then (primary_key z table c') (λ pk c''. (some (ok (merged table g pk)), c'')))
