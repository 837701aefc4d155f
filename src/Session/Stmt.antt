-- ===== src/Session/Stmt.antt =====
-- cubrid/stmt.go: prepared statements, the OUT parameters of a CALL, and EXECUTE.
pub mod Execute
pub mod Prepared
pub mod OutParams
pub mod Follows
pub mod Keeps
pub mod Typed
use gocubrid.Prelude.{
  ℕ, zero, suc, ℤ, pos, ◌+◌, ◌-◌, ◌*◌, Bool, true, false, ◌&&◌, ◌||◌, not, List, [], ◌∷◌, ◌++◌,
  length, get_elem?, get_or, set, take, replicate, Option, none, some, leb, ltb, ltb_ℤ, is_neg,
  pos_part, ◌==◌, if◌then◌else◌,
}
use gocubrid.Errors.{
  Error, bad_param_count, bad_column_count, prepare_column, not_a_call, out_index, stmt_closed,
  wrong_args, bind_failed, inline_columns,
}
use gocubrid.Exec.{
  Result, ok, err, Exec, pure, raise, lift, gets, wrap, modify, each, continue, ◌>>=◌, ◌>>◌,
}
use gocubrid.Bytes.{Bytes}
use gocubrid.Value.{Value, Lob}
use gocubrid.Wire.Writer.{
  Writer, ◌▹◌, new_writer, raw_byte, arg_int, arg_byte, arg_bytes, arg_string, arg_null,
}
use gocubrid.Wire.Reader.{Reader, Read, byte, int32, bytes, remaining}
use gocubrid.Protocol.Codes.{Version, at_least}
use gocubrid.Protocol.Codes.Types
use gocubrid.Protocol.Codes.Functions
use gocubrid.Protocol.Batch.{zero_from}
use gocubrid.Protocol.Status.{read_status}
use gocubrid.Protocol.Codec.DateTime.{Zones}
use gocubrid.Protocol.Codec.Encode.{encode_param, is_null}
use gocubrid.Session.Conn.{Conn, request, round_trip, bool_byte}
use gocubrid.Session.Column.{Column, blank_column, read_column}
use gocubrid.Session.Rows.{Rows, Row, Cursor, Fetch, fetch_next, consume_fetch}

abbrev pub select : ℕ
select = 21

abbrev pub call : ℕ
call = 24

abbrev pub call_sp : ℕ
call_sp = 126

abbrev pub min_column_wire_bytes : ℕ
min_column_wire_bytes = 28

-- `Stmt`; its connection is the connection at hand. A nil slice is `none`.
pub record Stmt : Type 0 where
  pub sql : Bytes
  pub handle : ℤ
  pub cmd_type : ℕ
  pub param_count : ℕ
  pub cols : List Column
  pub closed : Bool
  pub out_params : Option (List Bool)
  pub out_row : Option Row

unfoldable pub is_call : Stmt → Bool
is_call s = s.cmd_type == call || s.cmd_type == call_sp

-- `cols := make([]Column, n); copy(cols, s.cols)`
unfoldable pub widen : ℕ → List Column → List Column
widen n cols = take n cols ++ replicate (n - length cols) blank_column

unfoldable pub statement_columns : ℕ → ℕ → List Column → List Column
statement_columns cmd params cols = if cmd == call_sp then widen (params + 1) cols else cols

-- The columns, behind a count that the bytes at hand allow.
unfoldable pub read_columns : Read (List Column)
read_columns = do
  n ← int32
  left ← gets remaining
  if is_neg n || ltb left (pos_part n * min_column_wire_bytes)
      then raise (bad_column_count n left)
      else each 0 (pos_part n) (λ i. wrap (prepare_column i) read_column)

unfoldable pub read_prepared : Bytes → ℤ → ℕ → ℕ → Read Stmt
read_prepared sql handle cmd params = do
  byte
  cols ← read_columns
  pure (record {
    sql = sql;
    handle = handle;
    cmd_type = cmd;
    param_count = params;
    cols = statement_columns cmd params cols;
    closed = false;
    out_params = none;
    out_row = none;
  })

-- The response to PREPARE. Each parameter is a `?` of the statement, so there are no more of them
-- than it has bytes.
unfoldable pub read_stmt : Bytes → Read Stmt
read_stmt sql = do
  handle ← read_status
  int32
  cmd ← byte
  pc ← int32
  if is_neg pc || ltb (length sql) (pos_part pc)
      then raise (bad_param_count pc (length sql))
      else read_prepared sql handle cmd (pos_part pc)

unfoldable pub prepare_request : Bytes → ℕ → Bool → Bytes
prepare_request sql flag auto_commit =
    (new_writer
      ▹ raw_byte Functions.prepare
      ▹ arg_string sql
      ▹ arg_byte flag
      ▹ arg_byte (bool_byte auto_commit)).buf

-- `prepare`; the flag is 0 for `Prepare` and 0x40 for `PrepareCall`.
unfoldable pub prepare : Bytes → ℕ → Exec Conn Stmt
prepare sql flag c = request (prepare_request sql flag c.auto_commit) (read_stmt sql) c

abbrev pub out_flags : Stmt → List Bool
out_flags s = elim s.out_params [ none ↦ [] | some flags ↦ flags ]

-- `if s.outParams == nil { s.outParams = make([]bool, s.paramCount) }`
unfoldable pub made_flags : ℕ → Option (List Bool) → List Bool
made_flags n none = replicate n false
made_flags n (some flags) = flags

unfoldable pub register_out_param : ℤ → Exec Stmt (Unit {0})
register_out_param index s =
    if not (is_call s)
    then (err (not_a_call s.cmd_type), s)
    else if ltb_ℤ index (pos 1) || ltb_ℤ (pos s.param_count) index
    then (err (out_index index s.param_count), s)
    else (
      ok tt,
      record s {
        out_params = some (set (made_flags s.param_count s.out_params) (pos_part index - 1) true);
      },
    )

-- The values of the marked parameters; marker `i` stands at `i + 1` of the row, and beyond the row
-- is nil.
unfoldable pub pick_out : ℕ → List Bool → Row → List Value
pick_out i [] row = []
pick_out i (true ∷ flags) row = get_or row (i + 1) Value.null ∷ pick_out (i + 1) flags row
pick_out i (false ∷ flags) row = pick_out (i + 1) flags row

unfoldable pub out_values : Stmt → Option (List Value)
out_values s = elim s.out_row [ none ↦ none | some row ↦ some (pick_out 0 (out_flags s) row) ]

-- IN, OUT for a registered marker bound to nil, INOUT for one with a value.
unfoldable pub mode : Bool → Value → ℕ
mode is_out v = if is_out then (if is_null v then 2 else 3) else 1

unfoldable pub modes_from : ℕ → ℕ → List Bool → List Value → Bytes
modes_from i zero flags args = []
modes_from i (suc n) flags args =
    mode (get_or flags i false) (get_or args i Value.null) ∷ modes_from (i + 1) n flags args

unfoldable pub param_modes : Stmt → List Value → Bytes
param_modes s args = modes_from 0 s.param_count (out_flags s) args
