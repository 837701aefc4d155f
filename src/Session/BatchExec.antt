-- ===== src/Session/BatchExec.antt =====
-- cubrid/batch.go: many executions in one round trip.
pub mod Binds
pub mod Follows
use gocubrid.Prelude.{
  ℕ, zero, suc, ℤ, pos, ◌+◌, Bool, true, false, ◌&&◌, not, List, [], ◌∷◌, length, map, ltb, ◌==◌,
  if◌then◌else◌,
}
use gocubrid.Errors.{Error, stmt_closed, batch_without_params, batch_row_args, batch_bind}
use gocubrid.Exec.{Result, ok, err, Exec, pure, raise, lift, wrap, continue, ◌>>=◌, ◌>>◌}
use gocubrid.Bytes.{Bytes}
use gocubrid.Value.{Value}
use gocubrid.Wire.Writer.{Writer, new_writer}
use gocubrid.Wire.Reader.{Read}
use gocubrid.Protocol.Codes.{Version}
use gocubrid.Protocol.Batch.{
  BatchResult, execute_batch_prep_request, execute_batch_sql_request, parse_batch_response,
}
use gocubrid.Protocol.Status.{read_status}
use gocubrid.Session.Conn.{Conn, request}
use gocubrid.Session.Rows.{Row}
use gocubrid.Session.Stmt.{Stmt}
use gocubrid.Session.Stmt.Execute.{encode_arg}

-- `batchResults`: the outcomes under this package's type.
unfoldable pub batch_results : List BatchResult → List BatchResult
batch_results ps = map (λ p. record { affected_rows = p.affected_rows; failure = p.failure }) ps

unfoldable pub read_batch : Version → Bool → Read (List BatchResult)
read_batch ver with_stmt_type = do
  read_status
  ps ← parse_batch_response ver with_stmt_type
  pure (batch_results ps)

-- `batchRoundTrip`
unfoldable pub batch_round_trip : Bytes → Bool → Exec Conn (List BatchResult)
batch_round_trip payload with_stmt_type c = request payload (read_batch c.version with_stmt_type) c

-- `for i, row := range rows { if len(row) != s.paramCount { … } }`, from row `i` on.
unfoldable pub check_rows : ℕ → ℕ → List Row → Result (Unit {0})
check_rows params i [] = ok tt
check_rows params i (row ∷ rows) =
    if not (length row == params)
    then err (batch_row_args (i + 1) (length row) params)
    else check_rows params (i + 1) rows

unfoldable pub encode_row : ℕ → ℕ → Row → Exec Writer (Unit {0})
encode_row i j [] = pure tt
encode_row i j (a ∷ as') = do
  wrap (batch_bind (i + 1) (j + 1)) (encode_arg a)
  encode_row i (j + 1) as'

unfoldable pub encode_rows : ℕ → List Row → Exec Writer (Unit {0})
encode_rows i [] = pure tt
encode_rows i (row ∷ rows) = do encode_row i 0 row; encode_rows (i + 1) rows

-- The guards of `ExecBatch`, for rows that are not empty.
unfoldable pub batch_guard : Stmt → List Row → Result (Unit {0})
batch_guard s rows =
    if s.param_count == 0 && ltb 1 (length rows)
    then err (batch_without_params (length rows))
    else check_rows s.param_count 0 rows

unfoldable pub send_batch : Result (Unit {0}) × Writer → Exec Conn (List BatchResult)
send_batch (ok u, w) = batch_round_trip w.buf false
send_batch (err e, w) = raise e

unfoldable pub exec_rows : Stmt → List Row → Exec Conn (List BatchResult)
exec_rows s rows c =
    continue (batch_guard s rows)
      (λ u. send_batch (
        encode_rows 0 rows
          (execute_batch_prep_request s.handle c.auto_commit c.version new_writer)))
      c

-- `ExecBatch`
unfoldable pub exec_batch : Stmt → List Row → Exec Conn (List BatchResult)
exec_batch s [] = if s.closed then raise stmt_closed else pure []
exec_batch s (row ∷ rows) = if s.closed then raise stmt_closed else exec_rows s (row ∷ rows)

-- `ExecBatchSQL`
unfoldable pub exec_batch_sql : List Bytes → Exec Conn (List BatchResult)
exec_batch_sql [] c = (ok [], c)
exec_batch_sql (s ∷ sqls) c =
    batch_round_trip (execute_batch_sql_request c.auto_commit (s ∷ sqls) c.version new_writer).buf
      true c
