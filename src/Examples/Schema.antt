-- ===== src/Examples/Schema.antt =====
-- A class listing of one table, delivered in one block, and one that is cut off; index rows; and the
-- theorems on them.
use gocubrid.Prelude.{
  ℕ, pos, ◌≡◌, ◌∙◌, ap, refl, true, false, List, [], ◌∷◌, ◌++◌, none, some, arith, of_word, to_word,
}
use gocubrid.Errors.{eof}
use gocubrid.Exec.{ok, each}
use gocubrid.Bytes.{Bytes, be_bytes, be_uint}
use gocubrid.Value.{Value}
use gocubrid.Wire.Writer.{new_writer}
use gocubrid.Wire.Reader.{new_reader, int16, int32, byte, string, take_bytes, remaining}
use gocubrid.Protocol.Text.{zeros, trim_nul}
use gocubrid.Protocol.Requests.{schema_info_request}
use gocubrid.Protocol.Status.{read_status}
use gocubrid.Protocol.Codec.Kind.{kind_of}
use gocubrid.Protocol.Codec.Decode.{decode_value, decode_levels, decode_kind, fixed}
use gocubrid.Session.Conn.{Conn, Exchange, valid}
use gocubrid.Session.Conn.Trip.{Answers, answered, request-answered}
use gocubrid.Session.Column.{Column, blank_column, read_column_type, type_of_byte, decode_type}
use gocubrid.Session.Rows.{Rows, Row, decode_cell, fetch_request, is_zero}
use gocubrid.Session.Rows.Cells.{filled}
use gocubrid.Session.Rows.Block.{Tuple}
use gocubrid.Session.Rows.Lost.{IsLost}
use gocubrid.Session.Rows.Delivers.{
  Delivers, ended, served, fetched, fetch_bytes, after_block, IsFinished, IsCut,
}
use gocubrid.Protocol.Codes.{at_least}
use gocubrid.Session.Stmt.{Stmt, is_call}
use gocubrid.Session.Stmt.Execute.{cursor_of}
use gocubrid.Session.Schema.{
  schema_info, read_schema_info, read_schema_columns, read_schema_column, schema_stmt, schema_rows,
  pattern_flag, schema_int, schema_string, unqualify_name, after_dot,
}
use gocubrid.Session.Schema.Drain.{for_each_schema_row}
use gocubrid.Session.Schema.Drain.Ends.{Ended, for_each_schema_row-Ended}
use gocubrid.Session.Schema.Listings.{
  tables, columns, table_info, append_row, need_width, need_int, to_int32,
}
use gocubrid.Session.Schema.Listings.Whole.{each_row, tables-each_row, columns-cut}
use gocubrid.Examples.Peer.{no_zones, reply, conn}

-- A column without a name, in the short form.
abbrev column_bytes : ℕ → Bytes
column_bytes t = t ∷ zeros 10

-- The response to the request for classes: handle 7, one row to come, of a string and a short.
abbrev listing : Bytes
listing = be_bytes 4 7 ++ be_bytes 4 1 ++ be_bytes 4 2 ++ column_bytes 2 ++ column_bytes 9

abbrev cols : List Column
cols = record blank_column { type_code = 2 } ∷ record blank_column { type_code = 9 } ∷ []

abbrev after : List Exchange → Conn
after es = record (conn listing) { script = reply listing ∷ es }

listing-Answers : (es : List Exchange) → Answers (after es) listing [] es
unfolding valid be_bytes
listing-Answers es = record {
  exchange_now = reply listing;
  cas_info = zeros 4;
  usable = refl;
  scripted = refl;
  written = refl;
  arrived = refl;
  four = refl;
  small = omega arith;
}

abbrev stmt : Stmt
stmt = schema_stmt (pos 7) cols

abbrev rows : Rows
rows = schema_rows (pos 1) cols

read_listing : (read_schema_info (new_reader listing)).0 ≡ ok (stmt, rows)
unfolding read_schema_info read_schema_columns read_schema_column read_column_type type_of_byte each
    read_status byte int16 int32 string take_bytes be_bytes be_uint remaining of_word
read_listing = refl

abbrev class_request : Bytes
class_request = (schema_info_request (pos 1) none none (pattern_flag true true) 12 new_writer).buf

abbrev opened : List Exchange → Conn
opened es = answered class_request [] es (after es)

classes :
    (es : List Exchange)
    → schema_info (pos 1) none none true true (after es) ≡ (ok (stmt, rows), opened es)
classes es =
    unfold schema_info in
    ((request-answered class_request read_schema_info listing [] (after es) es
        (listing-Answers es)).0
      ∙ ap (λ t. (t, opened es)) read_listing)

-- The table "t", of type 2.
abbrev tuple : Tuple
tuple = record {
  index = pos 1;
  oid = zeros 8;
  cells =
      filled (116 ∷ 0 ∷ []) (Value.string (116 ∷ []))
      ∷ filled (0 ∷ 2 ∷ []) (Value.int16 (pos 2))
      ∷ [];
}

abbrev block : Bytes
block = fetch_bytes 12 0 1 (tuple ∷ [])

name_cell : decode_cell no_zones false 2 (116 ∷ 0 ∷ []) ≡ ok (Value.string (116 ∷ []))
unfolding decode_cell decode_value decode_levels decode_kind kind_of trim_nul
name_cell = refl

type_cell : decode_cell no_zones false 9 (0 ∷ 2 ∷ []) ≡ ok (Value.int16 (pos 2))
unfolding decode_cell decode_value decode_levels decode_kind kind_of fixed be_uint of_word
type_cell = refl

for_each_schema_row-Ended_example :
    Ended
      (for_each_schema_row no_zones
        (append_row table_info)
        []
        (rows, (opened (reply block ∷ []), stmt))).0
    × ((for_each_schema_row no_zones
          (append_row table_info)
          []
          (rows, (opened (reply block ∷ []), stmt))).1.0.closed
        ≡ true)
for_each_schema_row-Ended_example =
    for_each_schema_row-Ended no_zones (append_row table_info) []
      (rows, (opened (reply block ∷ []), stmt))

block-Answers : Answers (opened (reply block ∷ [])) block [] []
unfolding valid be_bytes to_word at_least
block-Answers = record {
  exchange_now = reply block;
  cas_info = zeros 4;
  usable = refl;
  scripted = refl;
  written = refl;
  arrived = refl;
  four = refl;
  small = omega arith;
}

abbrev row : Row
row = Value.string (116 ∷ []) ∷ Value.int16 (pos 2) ∷ []

abbrev fetched_rows : Rows
fetched_rows = after_block 12 1 (tuple ∷ []) rows

abbrev last : Conn × Rows
last = (
  answered (fetch_request (cursor_of stmt) (pos 1) (opened (reply block ∷ []))) [] []
      (opened (reply block ∷ [])),
  record fetched_rows { position = 1 },
)

delivered :
    Delivers no_zones (cursor_of stmt) IsFinished (opened (reply block ∷ []), rows) (row ∷ []) last
unfolding is_zero at_least decode_type is_call schema_rows schema_stmt
delivered =
    fetched {c = opened (reply block ∷ [])} {r = rows} 0 1 tuple [] [] [] (refl, refl, refl) refl
      (record {
        status = omega arith;
        match_columns =
            ((omega arith, refl, ((name_cell, omega arith), ((type_cell, omega arith), tt))), tt);
        few = omega arith;
      })
      block-Answers
      (served [] [] row (refl, refl, refl) (ended (row ∷ [], (refl, refl, refl), refl)))

tables-each_row_example :
    (tables no_zones (after (reply block ∷ []))).0 ≡ some (each_row table_info (row ∷ []))
tables-each_row_example =
    tables-each_row no_zones (after (reply block ∷ [])) (opened (reply block ∷ [])) stmt rows last
      (row ∷ []) (classes (reply block ∷ [])) delivered

listed_table : each_row table_info (row ∷ []) ≡ ok (record { name = 116 ∷ []; typ = pos 2 } ∷ [])
unfolding table_info need_width need_int schema_int schema_string unqualify_name after_dot to_int32
    of_word to_word
listed_table = refl

-- The columns of "t", cut off before the first.
abbrev gone : Exchange
gone = record { write_error = none; arrives = []; stop = eof; context_error = none }

abbrev column_request : Bytes
column_request =
    (schema_info_request (pos 4) (some (116 ∷ [])) none (pattern_flag false true) 12 new_writer).buf

abbrev cut_off : Conn
cut_off = answered column_request [] (gone ∷ []) (after (gone ∷ []))

cut_columns :
    schema_info (pos 4) (some (116 ∷ [])) none false true (after (gone ∷ []))
    ≡ (ok (stmt, rows), cut_off)
cut_columns =
    unfold schema_info in
    ((request-answered column_request read_schema_info listing [] (after (gone ∷ [])) (gone ∷ [])
        (listing-Answers (gone ∷ []))).0
      ∙ ap (λ t. (t, cut_off)) read_listing)

cut_off-IsLost : IsLost cut_off gone []
unfolding valid
cut_off-IsLost = record {
  usable = refl;
  scripted = refl;
  written = refl;
  nothing = refl;
  ended = refl;
  alive = refl;
}

IsCut-delivered : Delivers no_zones (cursor_of stmt) IsCut (cut_off, rows) [] (cut_off, rows)
unfolding is_zero schema_rows
IsCut-delivered = ended (gone, [], (refl, refl, omega arith), cut_off-IsLost)

columns-cut_example : (columns no_zones (116 ∷ []) (after (gone ∷ []))).0 ≡ some (ok [])
columns-cut_example =
    columns-cut no_zones (116 ∷ []) (after (gone ∷ [])) cut_off stmt rows (cut_off, rows) [] []
      cut_columns IsCut-delivered refl
