-- ===== src/Examples/Delivered.antt =====
-- A query whose one row comes with the response, through the adapter.
use gocubrid.Prelude.{
  pos, ap, ◌+ℤ◌, ◌≡◌, refl, true, false, [], ◌∷◌, ◌++◌, All, length, none, of_word, to_word,
}
use gocubrid.Exec.{Result, ok, each}
use gocubrid.Bytes.{Bytes, be_bytes, be_uint}
use gocubrid.Value.{Value}
use gocubrid.Wire.Writer.{raw_byte, be32, arg_byte, arg_int, arg_bytes, arg_null}
use gocubrid.Wire.Reader.{byte, int32, take_bytes, remaining, bytes}
use gocubrid.Protocol.Text.{zeros}
use gocubrid.Protocol.Codes.{at_least}
use gocubrid.Protocol.Frame.{write_request, read_response, read_full}
use gocubrid.Protocol.Status.{read_status}
use gocubrid.Protocol.Codec.Kind.{kind_of}
use gocubrid.Protocol.Codec.Decode.{decode_value, decode_levels, decode_kind, fixed}
use gocubrid.Session.Column.{blank_column, decode_type}
use gocubrid.Session.Conn.{Conn, round_trip, exchange, receive, request_cas_info, bool_byte}
use gocubrid.Session.Rows.{
  Rows, next, serve, serve_row, read_row, read_cell, consume_fetch, consume_tuples, consume_tuple,
  consume_end, decode_cell, next32,
}
use gocubrid.Session.Stmt.{Stmt, is_call}
use gocubrid.Session.Stmt.Execute.{
  query, execute, send_execute, respond, executed, read_executed, skip_results, skip_columns_flag,
  skip_shard, is_query, encode_args, execute_header, modes_arg, query_rows, inline_block, rows_of,
  cursor_of,
}
use gocubrid.Adapter.Rows.{next_row}
use gocubrid.Adapter.Values.{to_driver_row, to_driver_value}
use gocubrid.Adapter.Driver.{next_values}
use gocubrid.Adapter.Driver.Delivers.{HasTypes, query-HasTypes}
use gocubrid.Examples.Peer.{no_zones, conn}

abbrev stmt : Stmt
stmt = record {
  sql = 120 ∷ [];
  handle = pos 7;
  cmd_type = 21;
  param_count = 0;
  cols = record blank_column { type_code = 8 } ∷ [];
  closed = false;
  out_params = none;
  out_row = none;
}

-- One row; then the block: a tuple with the number 5, and the flag that it was the last.
abbrev response : Bytes
response =
    be_bytes 4 1
    ++ 0 ∷ zeros 4
    ++ 0 ∷ zeros 4
    ++ zeros 4
    ++ be_bytes 4 1
    ++ be_bytes 4 1
    ++ zeros 8
    ++ be_bytes 4 4
    ++ 0 ∷ 0 ∷ 0 ∷ 5 ∷ 1 ∷ []

abbrev ran : Result Rows × (Conn × Stmt)
ran = query no_zones [] (conn response, stmt)

abbrev rows : Rows
rows = record {
  cols = stmt.cols;
  tuples = (Value.int32 (pos 5) ∷ []) ∷ [];
  position = 0;
  next_index = pos 2;
  total_rows = pos 1;
  fetched_all = true;
  closed = false;
  owns_stmt = false;
}

got_rows : ran.0 ≡ ok rows
unfolding query execute send_execute respond executed query_rows inline_block rows_of read_executed
    skip_results skip_columns_flag skip_shard is_query is_call round_trip exchange receive
    read_response read_full read_status byte int32 take_bytes be_bytes be_uint remaining of_word
    encode_args execute_header modes_arg write_request request_cas_info bool_byte at_least raw_byte
    be32 arg_int arg_byte arg_bytes arg_null bytes consume_fetch consume_tuples consume_tuple
    consume_end read_row read_cell next32 to_word decode_cell decode_type decode_value decode_levels
    decode_kind kind_of fixed ◌+ℤ◌
got_rows = refl

served :
    (c : Conn)
    → (each 0 1 (λ i. next_values no_zones (cursor_of stmt)) (c, rows)).0
      ≡ ok ((Value.int64 (pos 5) ∷ []) ∷ [])
unfolding each next_values next_row next serve serve_row to_driver_row to_driver_value
served c = refl

plain : is_call stmt ≡ false
unfolding is_call
plain = refl

query-HasTypes_example :
    (length ((Value.int64 (pos 5) ∷ []) ∷ []) ≡ 1)
    × All (HasTypes stmt.cols) ((Value.int64 (pos 5) ∷ []) ∷ [])
query-HasTypes_example =
    query-HasTypes no_zones [] (conn response) ran.1.0 stmt ran.1.1 rows 1
      ((Value.int64 (pos 5) ∷ []) ∷ []) plain (ap (λ t. (t, ran.1)) got_rows) (served ran.1.0)
