-- ===== src/Examples/Release.antt =====
-- One-shot calls of the adapter that close their statement, and rows that are closed twice.
use gocubrid.Prelude.{
  ℤ, pos, ◌≡◌, refl, ap, ◌∙◌, true, false, List, [], ◌∷◌, ◌++◌, none, of_word, arith,
}
use gocubrid.Errors.{wrong_args}
use gocubrid.Exec.{Result, ok, err, wrap_error, each}
use gocubrid.Bytes.{Bytes, be_bytes, be_uint}
use gocubrid.Value.{Value}
use gocubrid.Wire.Writer.{raw_byte, arg_byte, arg_int, be32, arg_bytes, arg_null}
use gocubrid.Wire.Reader.{new_reader, byte, int32, take_bytes, remaining}
use gocubrid.Protocol.Text.{zeros}
use gocubrid.Protocol.Status.{read_status}
use gocubrid.Session.Conn.{
  Conn, Exchange, next_exchange, round_trip, valid, exchange, receive, request_cas_info, bool_byte,
}
use gocubrid.Session.Conn.Trip.{Answers, answered, request-answered}
use gocubrid.Session.Stmt.{
  Stmt, is_call, prepare, prepare_request, read_stmt, read_prepared, read_columns,
  statement_columns,
}
use gocubrid.Session.Stmt.Execute.{
  exec, query, execute, close_statement_request, send_execute, respond, executed, read_executed,
  skip_results, skip_columns_flag, skip_shard, is_query, encode_args, execute_header, modes_arg,
}
use gocubrid.Protocol.Codes.{at_least}
use gocubrid.Protocol.Frame.{write_request, read_response, read_full}
use gocubrid.Session.Stmt.Keeps.{close_frame}
use gocubrid.Adapter.{NamedValue, bind_args, bind_loop, is_named, map_err}
use gocubrid.Adapter.Statements.{Results, exec_context, query_context, rows_close}
use gocubrid.Adapter.Statements.Closes.{exec_context-closes, query_context-closes}
use gocubrid.Adapter.Statements.Twice.{IsReleased, rows_close-IsReleased}
use gocubrid.Examples.Peer.{no_zones, conn, reply}

abbrev sql : Bytes
sql = 120 ∷ []

-- Handle 7, no cache, command 4, no parameters, not updatable, no columns.
abbrev prepared : Bytes
prepared = be_bytes 4 7 ++ be_bytes 4 0 ++ 4 ∷ be_bytes 4 0 ++ 0 ∷ be_bytes 4 0

abbrev stmt : Stmt
stmt = record {
  sql = sql;
  handle = pos 7;
  cmd_type = 4;
  param_count = 0;
  cols = [];
  closed = false;
  out_params = none;
  out_row = none;
}

abbrev prepare_frame : Bytes
prepare_frame = prepare_request sql 0 true

abbrev fresh : List Exchange → Conn
fresh es = record (conn []) { script = reply prepared ∷ es }

prepared-Answers : (es : List Exchange) → Answers (fresh es) prepared [] es
unfolding valid be_bytes
prepared-Answers es = record {
  exchange_now = reply prepared;
  cas_info = zeros 4;
  usable = refl;
  scripted = refl;
  written = refl;
  arrived = refl;
  four = refl;
  small = omega arith;
}

read_prepared_stmt : (read_stmt sql (new_reader prepared)).0 ≡ ok stmt
unfolding read_stmt read_prepared read_columns statement_columns each read_status byte int32
    take_bytes be_bytes be_uint remaining of_word
read_prepared_stmt = refl

abbrev opened : List Exchange → Conn
opened es = answered prepare_frame [] es (fresh es)

prepares : (es : List Exchange) → prepare sql 0 (fresh es) ≡ (ok stmt, opened es)
unfolding prepare
prepares es =
    (request-answered prepare_frame (read_stmt sql) prepared [] (fresh es) es
      (prepared-Answers es)).0
    ∙ ap (λ t. (t, opened es)) read_prepared_stmt

-- One row is changed: status 1, then the fields that are skipped.
abbrev executed_reply : Bytes
executed_reply = be_bytes 4 1 ++ 0 ∷ be_bytes 4 0 ++ 0 ∷ be_bytes 4 0

abbrev ran : Result ℤ × (Conn × Stmt)
ran = exec no_zones [] (opened (reply executed_reply ∷ []), stmt)

ran_changed :
    (ran.0 ≡ ok (pos 1))
    × (valid ran.1.0 ≡ true)
    × ((next_exchange ran.1.0.script).write_error ≡ none)
unfolding exec execute send_execute respond executed read_executed skip_results skip_columns_flag
    skip_shard is_query is_call round_trip exchange receive read_response read_full read_status byte
    int32 take_bytes be_bytes be_uint remaining of_word valid encode_args execute_header modes_arg
    write_request request_cas_info bool_byte at_least raw_byte be32 arg_int arg_byte arg_bytes
    arg_null
ran_changed = (refl, refl, refl)

nothing_bound : bind_args [] ≡ ok []
unfolding bind_args bind_loop
nothing_bound = refl

exec_context-closes_example :
    let c = fresh (reply executed_reply ∷ []) in
    ((exec_context no_zones sql [] c).0 ≡ wrap_error map_err ran.0)
    × ((exec_context no_zones sql [] c).1.sent
        ≡ ran.1.0.sent
          ++ close_frame (close_statement_request (pos 7) ran.1.0.auto_commit) ran.1.0 ∷ [])
exec_context-closes_example =
    exec_context-closes no_zones sql [] [] (fresh (reply executed_reply ∷ []))
      (opened (reply executed_reply ∷ [])) stmt ran.0 ran.1.0 ran.1.1 nothing_bound
      (prepares (reply executed_reply ∷ [])) refl ran_changed.1 ran_changed.2

-- A value too many.
abbrev extra : List NamedValue
extra = record { name = []; ordinal = pos 1; value = Value.null } ∷ []

one_bound : bind_args extra ≡ ok (Value.null ∷ [])
unfolding bind_args bind_loop is_named
one_bound = refl

refused :
    query no_zones (Value.null ∷ []) (opened [], stmt) ≡ (err (wrong_args 0 1), (opened [], stmt))
unfolding query execute
refused = refl

query_context-closes_example :
    ((query_context no_zones sql extra (fresh [])).0 ≡ err (map_err (wrong_args 0 1)))
    × ((query_context no_zones sql extra (fresh [])).1.sent
        ≡ (opened []).sent ++ close_frame (close_statement_request (pos 7) true) (opened []) ∷ [])
query_context-closes_example =
    query_context-closes no_zones sql extra (Value.null ∷ []) (fresh []) (opened []) stmt
      (wrong_args 0 1) (opened []) stmt one_bound (prepares []) refused
      (request-answered prepare_frame (read_stmt sql) prepared [] (fresh []) []
        (prepared-Answers [])).1
      refl

abbrev results : Results
results = record {
  native = record {
    cols = [];
    tuples = [];
    position = 0;
    next_index = pos 1;
    total_rows = pos 0;
    fetched_all = true;
    closed = false;
    owns_stmt = false;
  };
  stmt = stmt;
  owns = true;
}

rows_close-IsReleased_example :
    let after = (rows_close (opened [], results)).1 in
    IsReleased after.1 × (rows_close after ≡ (ok tt, after))
rows_close-IsReleased_example = rows_close-IsReleased (opened []) results
