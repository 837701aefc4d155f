-- ===== src/Session/BatchExec/Follows.antt =====
-- Batches move a connection as every exchange does.
use gocubrid.Prelude.{List, [], ◌∷◌}
use gocubrid.Exec.{Result, ok, err}
use gocubrid.Bytes.{Bytes}
use gocubrid.Wire.Writer.{Writer}
use gocubrid.Session.Conn.{Conn}
use gocubrid.Session.Conn.Follows.{Follows, follows, Moves-request}
use gocubrid.Session.Rows.{Row}
use gocubrid.Session.Stmt.{Stmt}
use gocubrid.Session.BatchExec.{
  exec_batch, exec_rows, send_batch, batch_guard, batch_round_trip, exec_batch_sql,
}
use gocubrid.Session.OneShot.Follows.{if_conn-Follows, continue_conn-Follows}

send_batch-Follows : (out : Result (Unit {0}) × Writer) (c : Conn) → Follows c (send_batch out c).1
unfolding send_batch batch_round_trip
send_batch-Follows (ok u, w) c = (Moves-request _ _).step c
send_batch-Follows (err e, w) c = follows.stay c

exec_rows-Follows : (s : Stmt) (rows : List Row) (c : Conn) → Follows c (exec_rows s rows c).1
unfolding exec_rows
exec_rows-Follows s rows c =
    continue_conn-Follows c (batch_guard s rows) _ c (follows.stay c) (λ u. send_batch-Follows _ c)

pub exec_batch-Follows : (s : Stmt) (rows : List Row) (c : Conn) → Follows c (exec_batch s rows c).1
unfolding exec_batch
exec_batch-Follows s [] c = if_conn-Follows s.closed c _ _ (follows.stay c) (follows.stay c)
exec_batch-Follows s (row ∷ rows) c =
    if_conn-Follows s.closed c _ _ (follows.stay c) (exec_rows-Follows s (row ∷ rows) c)

pub exec_batch_sql-Follows : (sqls : List Bytes) (c : Conn) → Follows c (exec_batch_sql sqls c).1
unfolding exec_batch_sql batch_round_trip
exec_batch_sql-Follows [] c = follows.stay c
exec_batch_sql-Follows (s ∷ sqls) c = (Moves-request _ _).step c
