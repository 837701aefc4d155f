-- ===== src/Session/Schema.antt =====
-- cubrid/schema.go: GET_SCHEMA_INFO, the helpers that read its rows, and `Rows.Close` of
-- cubrid/rows.go, which releases the statement that schema rows own.
pub mod Names
pub mod Drain
pub mod Listings
pub mod Indexes
pub mod Follows
use gocubrid.Prelude.{
  ℕ, ℤ, pos, ◌+◌, ◌*◌, ◌/◌, ◌%◌, Bool, true, false, ◌||◌, ◌&&◌, not, List, [], ◌∷◌, Option, none,
  some, ltb, leb_ℤ, is_neg, pos_part, ◌==◌, bit_and, of_word, to_word, ◌^◌, if◌then◌else◌,
}
use gocubrid.Errors.{Error, schema_column, bad_schema_columns}
use gocubrid.Exec.{Result, ok, err, Exec, pure, raise, gets, wrap, each, ◌>>=◌}
use gocubrid.Bytes.{Bytes}
use gocubrid.Value.{Value}
use gocubrid.Wire.Writer.{new_writer}
use gocubrid.Wire.Reader.{Read, int16, int32, string, remaining}
use gocubrid.Protocol.Requests.{schema_info_request}
use gocubrid.Protocol.Status.{read_status}
use gocubrid.Session.Conn.{Conn, request}
use gocubrid.Session.Column.{Column, blank_column, read_column_type}
use gocubrid.Session.Rows.{Rows, is_zero}
use gocubrid.Session.Stmt.{Stmt, select}
use gocubrid.Session.Stmt.Execute.{close_stmt}

abbrev pub min_schema_column_wire_bytes : ℕ
min_schema_column_wire_bytes = 11

-- The short form of a column: type, scale, precision and name.
unfoldable pub read_schema_column : Read Column
read_schema_column = do
  col ← read_column_type blank_column
  scale ← int16
  precision ← int32
  name ← string
  pure (record col { scale = scale; precision = precision; name = name })

unfoldable pub read_schema_columns : Read (List Column)
read_schema_columns = do
  n ← int32
  left ← gets remaining
  if is_neg n || ltb left (pos_part n * min_schema_column_wire_bytes)
      then raise (bad_schema_columns n left)
      else each 0 (pos_part n) (λ i. wrap (schema_column i) read_schema_column)

-- The statement behind schema rows, and the rows, which own it.
unfoldable pub schema_stmt : ℤ → List Column → Stmt
schema_stmt handle cols = record {
  sql = [];
  handle = handle;
  cmd_type = select;
  param_count = 0;
  cols = cols;
  closed = false;
  out_params = none;
  out_row = none;
}

unfoldable pub schema_rows : ℤ → List Column → Rows
schema_rows total cols = record {
  cols = cols;
  tuples = [];
  position = 0;
  next_index = pos 1;
  total_rows = total;
  fetched_all = is_zero total;
  closed = false;
  owns_stmt = true;
}

unfoldable pub read_schema_info : Read (Stmt × Rows)
read_schema_info = do
  handle ← read_status
  total ← int32
  cols ← read_schema_columns
  pure (schema_stmt handle cols, schema_rows total cols)

unfoldable pub pattern_flag : Bool → Bool → ℕ
pattern_flag arg1 arg2 = (if arg1 then 1 else 0) + (if arg2 then 2 else 0)

-- `SchemaInfo`
unfoldable pub schema_info : ℤ → Option Bytes → Option Bytes → Bool → Bool → Exec Conn (Stmt × Rows)
schema_info typ arg1 arg2 pattern1 pattern2 c =
    request
      (schema_info_request typ arg1 arg2 (pattern_flag pattern1 pattern2) c.version new_writer).buf
      read_schema_info c

-- `Rows.Close`, over the statement that it may own.
unfoldable pub close_rows : Rows → Conn × Stmt → Result (Unit {0}) × (Rows × (Conn × Stmt))
close_rows r s =
    let shut = record r { closed = true } in
    let released = close_stmt s in
    if r.closed
    then (ok tt, (r, s))
    else if r.owns_stmt
    then (released.0, (shut, released.1))
    else (ok tt, (shut, s))

-- `schemaInt`
unfoldable pub schema_int : Value → Option ℤ
schema_int (Value.int16 n) = some n
schema_int (Value.int32 n) = some n
schema_int (Value.int64 n) = some n
schema_int v = none

-- `schemaString`
unfoldable pub schema_string : Value → Bytes
schema_string (Value.string s) = s
schema_string v = []

-- What follows the first dot, if there is one.
unfoldable pub after_dot : Bytes → Option Bytes
after_dot [] = none
after_dot (b ∷ bs) = let rest = after_dot bs in if b == 46 then some bs else rest

abbrev pub or_whole : Option Bytes → Bytes → Bytes
or_whole (some t) s = t
or_whole none s = s

unfoldable pub unqualify_name : Bytes → Bytes
unqualify_name s = or_whole (after_dot s) s

-- `byte(v)` and `byte(v >> 8)` of an int64.
unfoldable pub low_byte : ℤ → ℕ
low_byte v = to_word (2 ^ 63) v % 256

unfoldable pub second_byte : ℤ → ℕ
second_byte v = to_word (2 ^ 63) v / 256 % 256

unfoldable pub schema_type_code : ℤ → ℕ
schema_type_code v =
    if not (bit_and (second_byte v) 0x80 == 0) then low_byte v else bit_and (low_byte v) 0x1f
