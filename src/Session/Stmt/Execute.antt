-- ===== src/Session/Stmt/Execute.antt =====
-- cubrid/stmt.go: EXECUTE, from the bind arguments to the first rows, and closing a statement.
use gocubrid.Prelude.{
  ℕ, zero, suc, ℤ, pos, ◌+◌, Bool, true, false, ◌&&◌, not, List, [], ◌∷◌, length, replicate, Option,
  none, some, ltb, ltb_ℤ, pos_part, ◌==◌, if◌then◌else◌,
}
use gocubrid.Errors.{stmt_closed, wrong_args, bind_failed, inline_columns}
use gocubrid.Exec.{Result, ok, err, Exec, pure, raise, gets, wrap, bind, continue, ◌>>=◌, ◌>>◌}
use gocubrid.Bytes.{Bytes}
use gocubrid.Value.{Value}
use gocubrid.Wire.Writer.{Writer, ◌▹◌, new_writer, raw_byte, arg_int, arg_byte, arg_bytes, arg_null}
use gocubrid.Wire.Reader.{Reader, Read, byte, int32, bytes, remaining}
use gocubrid.Protocol.Codes.{Version, at_least}
use gocubrid.Protocol.Codes.Types
use gocubrid.Protocol.Codes.Functions
use gocubrid.Protocol.Batch.{zero_from}
use gocubrid.Protocol.Status.{read_status}
use gocubrid.Protocol.Codec.DateTime.{Zones}
use gocubrid.Protocol.Codec.Encode.{encode_param}
use gocubrid.Session.Conn.{Conn, request, round_trip, bool_byte}
use gocubrid.Session.Rows.{
  Rows, Row, Cursor, Fetch, fetch_next, consume_fetch, on_reader, set_rows, is_zero,
}
use gocubrid.Session.Stmt.{Stmt, is_call, select, call_sp, param_modes}

-- `encodeArg`, with `Lob.encodeParam`.
unfoldable pub encode_arg : Value → Exec Writer (Unit {0})
encode_arg (Value.lob l) w =
    (ok tt, w ▹ arg_byte (if l.is_clob then Types.clob else Types.blob) ▹ arg_bytes l.handle.raw)
encode_arg Value.nil_lob w = encode_param Value.null w
encode_arg (Value.numeric s) w = encode_param (Value.string s) w
encode_arg v w = encode_param v w

unfoldable pub encode_args : ℕ → List Value → Exec Writer (Unit {0})
encode_args i [] = pure tt
encode_args i (a ∷ as') = do wrap (bind_failed i) (encode_arg a); encode_args (i + 1) as'

unfoldable pub is_query : Stmt → Bool
is_query s = s.cmd_type == select

unfoldable pub modes_arg : Stmt → List Value → Writer → Writer
modes_arg s args w =
    if s.cmd_type == call_sp && not (s.param_count == 0)
    then arg_bytes (param_modes s args) w
    else arg_null w

-- The request up to the bind arguments.
unfoldable pub execute_header : Stmt → List Value → Conn → Writer
execute_header s args c =
    new_writer
    ▹ raw_byte Functions.execute
    ▹ arg_int s.handle
    ▹ arg_byte 0
    ▹ arg_int (pos 0)
    ▹ arg_int (pos 0)
    ▹ modes_arg s args
    ▹ arg_byte (bool_byte (is_query s))
    ▹ arg_byte (bool_byte c.auto_commit)
    ▹ arg_byte 1
    ▹ arg_bytes (replicate 8 0)
    ▹ zero_from 4 c.version

-- One result of the response: its type, count, OID and cache time.
unfoldable pub skip_result : Read (Unit {0})
skip_result = do byte; int32; bytes (pos 8); int32; int32; pure tt

unfoldable pub skip_results : ℕ → Read (Unit {0})
skip_results zero = pure tt
skip_results (suc n) = do skip_result; skip_results n

unfoldable pub skip_columns_flag : Version → Read (Unit {0})
skip_columns_flag ver =
    if at_least ver 2
    then (do inc ← byte; if inc == 1 then raise inline_columns else pure tt)
    else pure tt

unfoldable pub skip_shard : Version → Read (Unit {0})
skip_shard ver = if at_least ver 5 then (do int32; pure tt) else pure tt

-- The response up to the rows: the row count.
unfoldable pub read_executed : Version → Read ℤ
read_executed ver = do
  rc ← read_status
  byte
  n ← int32
  skip_results (pos_part n)
  skip_columns_flag ver
  skip_shard ver
  pure rc

abbrev pub cursor_of : Stmt → Cursor
cursor_of s = record { handle = s.handle; is_call = is_call s }

-- `&Rows{stmt: s, cols: s.cols, totalRows: rc, nextIndex: 1}`
abbrev pub new_rows : Stmt → ℤ → Rows
new_rows s rc = record {
  cols = s.cols;
  tuples = [];
  position = 0;
  next_index = pos 1;
  total_rows = rc;
  fetched_all = false;
  closed = false;
  owns_stmt = false;
}

-- The first block of a query, if the response holds one.
unfoldable pub inline_block : Zones → Version → Stmt → ℤ → Exec Fetch (Unit {0})
inline_block z ver s rc = do
  left ← on_reader (gets remaining)
  if ltb_ℤ (pos 0) rc && ltb 4 left
      then (do on_reader int32; consume_fetch z ver (is_call s) s.cols)
      else set_rows (λ r. record r { fetched_all = is_zero rc })

abbrev pub Executed : Type 0
Executed = ℤ × Option Rows

unfoldable pub query_rows : Zones → ℤ → Reader → Exec (Conn × Stmt) Executed
query_rows z rc rd s =
    let out = inline_block z s.0.version s.1 rc (record { reader = rd; rows = new_rows s.1 rc }) in
    (bind out.0 (λ u. ok (rc, some out.1.rows)), s)

-- `if rows.nextIndex > rc { rows.fetchedAll = true }`
unfoldable pub mark_fetched : ℤ → Rows → Rows
mark_fetched rc r = if ltb_ℤ rc r.next_index then record r { fetched_all = true } else r

unfoldable pub first_row : Option Row → List Row → Option Row
first_row old [] = old
first_row old (t ∷ ts) = some t

-- The value row of a CALL is fetched, and kept for the OUT values.
unfoldable pub call_rows : Zones → ℤ → Exec (Conn × Stmt) Executed
call_rows z rc s =
    let out = fetch_next z (cursor_of s.1) (s.0, new_rows s.1 rc) in
    continue out.0
      (λ u t. (
        ok (rc, some (mark_fetched rc out.1.1)),
        (t.0, record s.1 { out_row = first_row s.1.out_row out.1.1.tuples }),
      ))
      (out.1.0, s.1)

unfoldable pub executed : Zones → Reader → ℤ → Exec (Conn × Stmt) Executed
executed z rd rc s =
    if is_query s.1
    then query_rows z rc rd s
    else if is_call s.1 && ltb_ℤ (pos 0) rc
    then call_rows z rc s
    else (ok (rc, none), s)

-- The response to EXECUTE.
unfoldable pub respond : Zones → Reader → Exec (Conn × Stmt) Executed
respond z r s =
    let got = read_executed s.0.version r in continue got.0 (λ rc. executed z got.1 rc) s

unfoldable pub send_execute : Zones → Result (Unit {0}) × Writer → Exec (Conn × Stmt) Executed
send_execute z (err e, w) s = (err e, s)
send_execute z (ok u, w) s =
    let sent = round_trip w.buf s.0 in continue sent.0 (respond z) (sent.1, s.1)

-- `execute`
unfoldable pub execute : Zones → List Value → Exec (Conn × Stmt) Executed
execute z args s =
    let fresh = record s.1 { out_row = none } in
    if s.1.closed
    then (err stmt_closed, s)
    else if not (length args == s.1.param_count)
    then (err (wrong_args s.1.param_count (length args)), s)
    else send_execute z (encode_args 1 args (execute_header fresh args s.0)) (s.0, fresh)

-- `Exec` of a statement, and `Query`: without rows it gives an empty, finished iterator.
unfoldable pub exec : Zones → List Value → Exec (Conn × Stmt) ℤ
exec z args = do out ← execute z args; pure out.0

unfoldable pub rows_of : Stmt → Executed → Rows
rows_of s (rc, some rows) = rows
rows_of s (rc, none) = record (new_rows s rc) { next_index = pos 0; fetched_all = true }

unfoldable pub query : Zones → List Value → Exec (Conn × Stmt) Rows
query z args = do out ← execute z args; s ← gets (λ t. t.1); pure (rows_of s out)

unfoldable pub close_statement_request : ℤ → Bool → Bytes
close_statement_request handle auto_commit =
    (new_writer
      ▹ raw_byte Functions.close_statement
      ▹ arg_int handle
      ▹ arg_byte (bool_byte auto_commit)).buf

unfoldable pub read_closed : Read (Unit {0})
read_closed = do read_status; pure tt

-- `Close`: the statement counts as closed whatever the broker answers, and a second call does
-- nothing.
unfoldable pub close_stmt : Exec (Conn × Stmt) (Unit {0})
close_stmt s =
    let shut = record s.1 { closed = true } in
    let out = request (close_statement_request s.1.handle s.0.auto_commit) read_closed s.0 in
    if s.1.closed then (ok tt, s) else (out.0, (out.1, shut))
