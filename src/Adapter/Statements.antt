-- ===== src/Adapter/Statements.antt =====
-- conn.go, stmt.go and rows.go of the root package: preparing, executing and querying for
-- database/sql, and who closes a statement. A statement and an iterator are passed beside the
-- connection.
pub mod Closes
pub mod Twice
use gocubrid.Prelude.{ℕ, ℤ, Bool, true, false, List}
use gocubrid.Errors.{no_last_insert_id}
use gocubrid.Exec.{Result, ok, err, Exec, pure, raise, lift, gets, wrap, wrap_error, ◌>>=◌}
use gocubrid.Bytes.{Bytes}
use gocubrid.Value.{Value}
use gocubrid.Protocol.Codec.DateTime.{Zones}
use gocubrid.Session.Conn.{Conn}
use gocubrid.Session.Rows.{Rows}
use gocubrid.Session.Stmt.{Stmt, prepare}
use gocubrid.Session.Stmt.Execute.{exec, query, close_stmt}
use gocubrid.Session.Schema.{close_rows}
use gocubrid.Adapter.{map_err, NamedValue, bind_args, values_to_named}

-- `rows`: the native rows, the statement behind them, and whether the rows own it.
pub record Results : Type 0 where
  pub native : Rows
  pub stmt : Stmt
  pub owns : Bool

-- `PrepareContext`
unfoldable pub prepare_context : Bytes → Exec Conn Stmt
prepare_context sql = wrap map_err (prepare sql 0)

-- `defer ns.Close(context.Background())`, whose outcome is dropped.
abbrev pub released {ℓ} : {A : Type ℓ} → Result A × (Conn × Stmt) → Result A × Conn
released out = (out.0, (close_stmt out.1).1.0)

-- The statement that `ExecContext` prepared is closed, whatever the execution gives.
unfoldable pub exec_prepared : Zones → List Value → Stmt → Exec Conn ℤ
exec_prepared z vals s c = released (wrap map_err (exec z vals) (c, s))

unfoldable pub exec_context : Zones → Bytes → List NamedValue → Exec Conn ℤ
exec_context z sql args = do
  vals ← lift (bind_args args)
  s ← prepare_context sql
  exec_prepared z vals s

-- Rows that are returned own the statement; if there are none, it is closed at once.
abbrev pub own_stmt : Result Rows × (Conn × Stmt) → Result Results × Conn
own_stmt (ok r, (c, s)) = (ok (record { native = r; stmt = s; owns = true }), c)
own_stmt (err e, s) = (err e, (close_stmt s).1.0)

unfoldable pub query_prepared : Zones → List Value → Stmt → Exec Conn Results
query_prepared z vals s c = own_stmt (wrap map_err (query z vals) (c, s))

-- `QueryContext`
unfoldable pub query_context : Zones → Bytes → List NamedValue → Exec Conn Results
query_context z sql args = do
  vals ← lift (bind_args args)
  s ← prepare_context sql
  query_prepared z vals s

-- The methods of a prepared statement, which its caller closes.
unfoldable pub stmt_exec_context : Zones → List NamedValue → Exec (Conn × Stmt) ℤ
stmt_exec_context z args = do vals ← lift (bind_args args); wrap map_err (exec z vals)

unfoldable pub stmt_query_context : Zones → List NamedValue → Exec (Conn × Stmt) Results
stmt_query_context z args = do
  vals ← lift (bind_args args)
  r ← wrap map_err (query z vals)
  s ← gets (λ t. t.1)
  pure (record { native = r; stmt = s; owns = false })

unfoldable pub stmt_exec : Zones → List Value → Exec (Conn × Stmt) ℤ
stmt_exec z args = stmt_exec_context z (values_to_named 0 args)

unfoldable pub stmt_query : Zones → List Value → Exec (Conn × Stmt) Results
stmt_query z args = stmt_query_context z (values_to_named 0 args)

unfoldable pub stmt_close : Exec (Conn × Stmt) (Unit {0})
stmt_close = wrap map_err close_stmt

unfoldable pub num_input : Stmt → ℕ
num_input s = s.param_count

-- `LastInsertId` of a result.
unfoldable pub last_insert_id : Result ℤ
last_insert_id = err no_last_insert_id

-- `if cerr := …; err == nil { err = cerr }`
abbrev pub first_error : Result (Unit {0}) → Result (Unit {0}) → Result (Unit {0})
first_error (ok u) later = later
first_error (err e) later = err e

-- The owned statement is closed too, also if closing the rows failed.
unfoldable pub close_owned :
    Bool → Result (Unit {0}) × (Rows × (Conn × Stmt)) → Result (Unit {0}) × (Conn × Results)
close_owned false (e, (r, (c, s))) =
    (wrap_error map_err e, (c, record { native = r; stmt = s; owns = false }))
close_owned true (e, (r, s)) =
    let out = close_stmt s in
    (
      wrap_error map_err (first_error e out.0),
      (out.1.0, record { native = r; stmt = out.1.1; owns = true }),
    )

-- `Close` of rows.
unfoldable pub rows_close : Exec (Conn × Results) (Unit {0})
rows_close (c, r) = close_owned r.owns (close_rows r.native (c, r.stmt))
