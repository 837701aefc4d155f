-- ===== src/Examples/Statements.antt =====
-- Runs of statements, rows, LOBs and batches, and their theorems at concrete inputs.
use gocubrid.Prelude.{
  pos, ◌+◌, ◌≡◌, ◌*◌, refl, true, false, List, [], ◌∷◌, ◌++◌, none, length, of_word, arith,
}
use gocubrid.Errors.{eof}
use gocubrid.Exec.{ok, err, each}
use gocubrid.Exec.Returns.{Returns}
use gocubrid.Bytes.{be_uint}
use gocubrid.Value.{Value, Lob}
use gocubrid.Wire.Args.{pack}
use gocubrid.Wire.Writer.{new_writer}
use gocubrid.Protocol.Text.{zeros}
use gocubrid.Protocol.Codec.Decode.{decode_value, decode_levels, decode_kind, fixed}
use gocubrid.Protocol.Codec.Kind.{kind_of}
use gocubrid.Session.Column.{Column, blank_column, decode_type}
use gocubrid.Session.Rows.{Rows, Row, Cursor, next, read_row, consume_fetch, decode_cell}
use gocubrid.Session.Rows.Fills.{Fills}
use gocubrid.Session.Rows.Block.{
  Tuple, block_bytes, with_end, with_tuples, consume_fetch-block_bytes,
}
use gocubrid.Session.Rows.Cells.{filled, absent}
use gocubrid.Session.Rows.Serve.{each-next}
use gocubrid.Session.Rows.Width.{read_row-width}
use gocubrid.Session.Stmt.{Stmt, is_call, read_stmt, register_out_param}
use gocubrid.Session.Stmt.Prepared.{IsPrepared, read_stmt-IsPrepared}
use gocubrid.Session.Stmt.OutParams.{HasFlags, register_out_param-HasFlags}
use gocubrid.Session.LobStream.{read_at, append}
use gocubrid.Session.LobStream.Read.{IsRead, read_at-IsRead}
use gocubrid.Session.LobStream.Append.{IsAppended, append-IsAppended}
use gocubrid.Session.BatchExec.{check_rows, encode_rows}
use gocubrid.Session.BatchExec.Binds.{batch_args, encode_rows-batch_args}
use gocubrid.Examples.Peer.{no_zones, conn}

abbrev int_column : Column
int_column = record blank_column { type_code = 8 }

abbrev two_columns : List Column
two_columns = int_column ∷ int_column ∷ []

abbrev tuple : Tuple
tuple = record {
  index = pos 1;
  oid = zeros 8;
  cells = filled (0 ∷ 0 ∷ 0 ∷ 5 ∷ []) (Value.int32 (pos 5)) ∷ absent ∷ [];
}

five :
    decode_cell no_zones false (decode_type int_column) (0 ∷ 0 ∷ 0 ∷ 5 ∷ [])
    ≡ ok (Value.int32 (pos 5))
unfolding decode_cell decode_type decode_value decode_levels decode_kind kind_of fixed be_uint
    of_word
five = refl

consume_fetch-block_bytes_example :
    Fills
      (consume_fetch no_zones 12 false two_columns)
      (block_bytes 12 1 (tuple ∷ []))
      tt
      (λ r. with_end 12 1 1 (with_tuples (tuple ∷ []) r))
consume_fetch-block_bytes_example =
    consume_fetch-block_bytes no_zones 12 false two_columns 1 (tuple ∷ [])
      ((omega arith, refl, ((five, omega arith), (tt, tt))), tt) (omega arith)

abbrev seen : Rows
seen = record {
  cols = two_columns;
  tuples = (Value.null ∷ []) ∷ (Value.bool true ∷ []) ∷ [];
  position = 1;
  next_index = pos 3;
  total_rows = pos 2;
  fetched_all = true;
  closed = false;
  owns_stmt = false;
}

abbrev cursor : Cursor
cursor = record { handle = pos 1; is_call = false }

each-next_example :
    let end = record seen { position = 1 + 1 } in
    (each 0 1 (λ i. next no_zones cursor) (conn [], seen)
      ≡ (ok ((Value.bool true ∷ []) ∷ []), (conn [], end)))
    × (next no_zones cursor (conn [], end) ≡ (err eof, (conn [], end)))
each-next_example =
    each-next 0 no_zones cursor (conn []) seen ((Value.null ∷ []) ∷ [])
      ((Value.bool true ∷ []) ∷ []) (refl, refl, refl) refl

read_row-width_example : Returns (λ row. length row ≡ 2) (read_row no_zones false two_columns)
read_row-width_example = read_row-width no_zones false two_columns

read_stmt-IsPrepared_example : Returns (IsPrepared (63 ∷ [])) (read_stmt (63 ∷ []))
read_stmt-IsPrepared_example = read_stmt-IsPrepared (63 ∷ [])

abbrev procedure : Stmt
procedure = record {
  sql = 63 ∷ 63 ∷ [];
  handle = pos 1;
  cmd_type = 126;
  param_count = 2;
  cols = [];
  closed = false;
  out_params = none;
  out_row = none;
}

register_out_param-HasFlags_example : HasFlags (register_out_param (pos 2) procedure).1
register_out_param-HasFlags_example = register_out_param-HasFlags (pos 2) procedure (λ flags e. cc)

is_call_procedure : is_call procedure ≡ true
unfolding is_call
is_call_procedure = refl

abbrev clob : Lob
clob = record {
  handle = record { db_type = pos 24; size = pos 0; locator = 97 ∷ []; raw = zeros 18 };
  is_clob = true;
  writable = true;
}

read_at-IsRead_example : IsRead 8 (read_at clob.handle 8 (pos 0) (conn [])).0
read_at-IsRead_example = read_at-IsRead clob.handle 8 (pos 0) (conn [])

append-IsAppended_example : IsAppended 0 2 (append (7 ∷ 8 ∷ []) (conn [], clob))
append-IsAppended_example = append-IsAppended 0 (7 ∷ 8 ∷ []) (conn [], clob) refl refl (omega arith)

abbrev binds : List Row
binds = (Value.int32 (pos 1) ∷ []) ∷ (Value.null ∷ []) ∷ []

binds_checked : check_rows 1 0 binds ≡ ok tt
unfolding check_rows
binds_checked = refl

encode_rows-batch_args_example :
    (encode_rows 0 binds new_writer ≡ (ok tt, record { buf = [] ++ pack (batch_args binds) }))
    × (length (batch_args binds) ≡ 2 * (1 * length binds))
encode_rows-batch_args_example =
    encode_rows-batch_args 1 binds new_writer binds_checked ((omega arith, tt), ((tt, tt), tt))
