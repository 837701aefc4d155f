-- ===== src/Session/OneShot.antt =====
-- `Conn.Exec` of cubrid/conn.go, and the savepoints of cubrid/tx.go, which are SQL.
pub mod Savepoints
pub mod Follows
use gocubrid.Prelude.{ℤ, List, [], ◌∷◌, ◌++◌, if◌then◌else◌}
use gocubrid.Errors.{Error, savepoint_name}
use gocubrid.Exec.{Result, ok, err, Exec, continue}
use gocubrid.Bytes.{Bytes}
use gocubrid.Value.{Value}
use gocubrid.Protocol.Codec.DateTime.{Zones}
use gocubrid.Session.Conn.{Conn}
use gocubrid.Session.Stmt.{Stmt, prepare}
use gocubrid.Session.Stmt.Execute.{exec, close_stmt}
use gocubrid.Session.Tx.{is_identifier}

-- The execution, and the deferred `Close`, whose outcome is dropped.
unfoldable pub run_once : Zones → List Value → Stmt → Exec Conn ℤ
run_once z args s c = let out = exec z args (c, s) in (out.0, (close_stmt out.1).1.0)

unfoldable pub exec_once : Zones → Bytes → List Value → Exec Conn ℤ
exec_once z sql args c = let got = prepare sql 0 c in continue got.0 (run_once z args) got.1

-- `checkSavepointName`
unfoldable pub check_savepoint_name : Bytes → Result (Unit {0})
check_savepoint_name name = if is_identifier name then ok tt else err (savepoint_name name)

unfoldable pub done_once : Result ℤ × Conn → Result (Unit {0}) × Conn
done_once (ok n, c) = (ok tt, c)
done_once (err e, c) = (err e, c)

-- The checked name behind an SQL prefix.
unfoldable pub named_sql : Zones → Bytes → Bytes → Exec Conn (Unit {0})
named_sql z prefix name c =
    continue (check_savepoint_name name) (λ u t. done_once (exec_once z (prefix ++ name) [] t)) c

-- "SAVEPOINT "
abbrev pub savepoint_prefix : Bytes
savepoint_prefix = 83 ∷ 65 ∷ 86 ∷ 69 ∷ 80 ∷ 79 ∷ 73 ∷ 78 ∷ 84 ∷ 32 ∷ []

-- "ROLLBACK TO SAVEPOINT "
abbrev pub rollback_prefix : Bytes
rollback_prefix = 82 ∷ 79 ∷ 76 ∷ 76 ∷ 66 ∷ 65 ∷ 67 ∷ 75 ∷ 32 ∷ 84 ∷ 79 ∷ 32 ∷ savepoint_prefix

unfoldable pub savepoint : Zones → Bytes → Exec Conn (Unit {0})
savepoint z name = named_sql z savepoint_prefix name

unfoldable pub rollback_to_savepoint : Zones → Bytes → Exec Conn (Unit {0})
rollback_to_savepoint z name = named_sql z rollback_prefix name
