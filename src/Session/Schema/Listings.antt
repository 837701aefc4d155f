-- ===== src/Session/Schema/Listings.antt =====
-- The typed listings of cubrid/schema.go: tables, columns, primary keys and foreign keys.
pub mod Whole
use gocubrid.Prelude.{
  ℕ, ℤ, pos, ◌^◌, Bool, true, false, not, List, [], ◌∷◌, ◌++◌, length, get_or, Option, none, some,
  ltb, of_word, to_word, if◌then◌else◌,
}
use gocubrid.Errors.{Error, Family, row_shape, bad_schema_value}
use gocubrid.Exec.{Result, ok, err, bind}
use gocubrid.Bytes.{Bytes}
use gocubrid.Value.{Value}
use gocubrid.Protocol.Codec.DateTime.{Zones}
use gocubrid.Session.Conn.{Conn}
use gocubrid.Session.Rows.{Rows, Row, is_zero}
use gocubrid.Session.Stmt.{Stmt}
use gocubrid.Session.Schema.{
  schema_info, schema_int, schema_string, schema_type_code, unqualify_name,
}
use gocubrid.Session.Schema.Drain.{Loop, for_each_schema_row}

pub record TableInfo : Type 0 where
  pub name : Bytes
  pub typ : ℤ

pub record ColumnInfo : Type 0 where
  pub name : Bytes
  pub type_code : ℕ
  pub scale : ℤ
  pub precision : ℤ
  pub not_null : Bool
  pub unique : Bool
  pub is_key : Bool
  pub default : Bytes
  pub order : ℤ
  pub table : Bytes

pub record KeyColumn : Type 0 where
  pub table : Bytes
  pub column : Bytes
  pub key_name : Bytes
  pub seq : ℤ

pub record ForeignKey : Type 0 where
  pub pk_table : Bytes
  pub pk_column : Bytes
  pub fk_table : Bytes
  pub fk_column : Bytes
  pub fk_name : Bytes
  pub pk_name : Bytes
  pub seq : ℤ
  pub update_rule : ℤ
  pub delete_rule : ℤ

-- `row[i]`, behind a check of the row's width.
abbrev pub cell : Row → ℕ → Value
cell row i = get_or row i Value.null

-- `int32(v)` and `int16(v)` of an int64.
unfoldable pub to_int32 : ℤ → ℤ
to_int32 v = of_word (2 ^ 31) (to_word (2 ^ 31) v)

unfoldable pub to_int16 : ℤ → ℤ
to_int16 v = of_word (2 ^ 15) (to_word (2 ^ 15) v)

-- `if v, ok := schemaInt(…); ok { field = … }` on a field that is zero before.
abbrev pub int_or_zero : Option ℤ → ℤ
int_or_zero (some v) = v
int_or_zero none = pos 0

abbrev pub is_set : Value → Bool
is_set v = not (is_zero (int_or_zero (schema_int v)))

-- `typ, ok := schemaInt(…); if !ok { return … }`
unfoldable pub need_int : Family → Value → Result ℤ
need_int family v = elim (schema_int v) [ some n ↦ ok n | none ↦ err (bad_schema_value family) ]

-- `if len(row) < want { return rowShapeError(…) }`
unfoldable pub need_width {ℓ} : {A : Type ℓ} → Family → ℕ → Row → Result A → Result A
need_width family want row r =
    if ltb (length row) want then err (row_shape family want (length row)) else r

unfoldable pub table_info : Row → Result TableInfo
table_info row = need_width Family.class 2 row (
    bind (need_int Family.class (cell row 1)) (λ typ.
      ok (record { name = unqualify_name (schema_string (cell row 0)); typ = to_int32 typ })))

unfoldable pub column_info : Row → Result ColumnInfo
column_info row = need_width Family.attribute 13 row (
    bind (need_int Family.attribute (cell row 1)) (λ domain. ok (record {
      name = schema_string (cell row 0);
      type_code = schema_type_code domain;
      scale = to_int16 (int_or_zero (schema_int (cell row 2)));
      precision = to_int32 (int_or_zero (schema_int (cell row 3)));
      not_null = is_set (cell row 5);
      unique = is_set (cell row 7);
      is_key = is_set (cell row 12);
      default = schema_string (cell row 8);
      order = to_int32 (int_or_zero (schema_int (cell row 9)));
      table = unqualify_name (schema_string (cell row 10));
    })))

unfoldable pub key_column : Row → Result KeyColumn
key_column row = need_width Family.primary_key 4 row (
    bind (need_int Family.primary_key (cell row 2)) (λ seq. ok (record {
      table = unqualify_name (schema_string (cell row 0));
      column = schema_string (cell row 1);
      key_name = schema_string (cell row 3);
      seq = to_int32 seq;
    })))

unfoldable pub foreign_key : Row → Result ForeignKey
foreign_key row = need_width Family.foreign_key 9 row (
    ok (record {
      pk_table = unqualify_name (schema_string (cell row 0));
      pk_column = schema_string (cell row 1);
      fk_table = unqualify_name (schema_string (cell row 2));
      fk_column = schema_string (cell row 3);
      fk_name = schema_string (cell row 7);
      pk_name = schema_string (cell row 8);
      seq = to_int32 (int_or_zero (schema_int (cell row 4)));
      update_rule = to_int16 (int_or_zero (schema_int (cell row 5)));
      delete_rule = to_int16 (int_or_zero (schema_int (cell row 6)));
    }))

-- `out = append(out, …)`
abbrev pub append_row {ℓ} : {A : Type ℓ} → (Row → Result A) → Row → List A → Result (List A)
append_row parse row out = bind (parse row) (λ a. ok (out ++ a ∷ []))

module _ {ℓ} {B : Type ℓ} where
  -- The rows of a family, and what `fn` makes of them. The statement is gone after it.
  unfoldable pub listed :
      Zones → (Row → B → Result B) → B → Result (Stmt × Rows) × Conn → Option (Result B) × Conn
  listed z fn b (err e, c) = (some (err e), c)
  listed z fn b (ok (s, r), c) =
      let out = for_each_schema_row z fn b (r, (c, s)) in (out.0, out.1.1.0)

unfoldable pub tables : Zones → Loop Conn (List TableInfo)
tables z c = listed z (append_row table_info) [] (schema_info (pos 1) none none true true c)

unfoldable pub columns : Zones → Bytes → Loop Conn (List ColumnInfo)
columns z table c =
    listed z (append_row column_info) [] (schema_info (pos 4) (some table) none false true c)

unfoldable pub primary_key : Zones → Bytes → Loop Conn (List KeyColumn)
primary_key z table c =
    listed z (append_row key_column) [] (schema_info (pos 16) (some table) none true true c)

unfoldable pub foreign_keys : Zones → ℤ → Bytes → Loop Conn (List ForeignKey)
foreign_keys z typ table c =
    listed z (append_row foreign_key) [] (schema_info typ (some table) none true true c)

unfoldable pub imported_keys : Zones → Bytes → Loop Conn (List ForeignKey)
imported_keys z table = foreign_keys z (pos 17) table

unfoldable pub exported_keys : Zones → Bytes → Loop Conn (List ForeignKey)
exported_keys z table = foreign_keys z (pos 18) table
