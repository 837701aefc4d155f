-- ===== src/Session/OneShot/Follows.antt =====
-- One-shot calls and savepoints move a connection as every exchange does.
use gocubrid.Prelude.{◌++◌, ℤ, Bool, true, false, List, [], if◌then◌else◌}
use gocubrid.Exec.{Result, ok, err, Exec, pure, continue}
use gocubrid.Bytes.{Bytes}
use gocubrid.Value.{Value}
use gocubrid.Protocol.Codec.DateTime.{Zones}
use gocubrid.Session.Conn.{Conn}
use gocubrid.Session.Conn.Follows.{Follows, follows, Moves-request}
use gocubrid.Session.Stmt.{Stmt, prepare}
use gocubrid.Session.Stmt.Execute.{exec, execute}
use gocubrid.Session.Stmt.Follows.{continue-Follows, execute-Follows, close_stmt-Follows}
use gocubrid.Session.OneShot.{exec_once, run_once, done_once, named_sql, check_savepoint_name}

-- A test in front of a connection operation.
pub by_test {ℓ} :
    {A : Type ℓ} (b : Bool) (s : Conn) (x y : Result A × Conn)
    → Follows s x.1
    → Follows s y.1
    → Follows s (if b then x else y).1
by_test true s x y hx hy = hx
by_test false s x y hx hy = hy

pub if_conn-Follows {ℓ} :
    {A : Type ℓ} (b : Bool) (c : Conn) (m n : Exec Conn A)
    → Follows c (m c).1
    → Follows c (n c).1
    → Follows c ((if b then m else n) c).1
if_conn-Follows true c m n hm hn = hm
if_conn-Follows false c m n hm hn = hn

pub continue_conn-Follows {ℓ κ} :
    {A : Type ℓ} {B : Type κ} (c : Conn) (r : Result A) (f : A → Exec Conn B) (s : Conn)
    → Follows c s
    → ((a : A) → Follows s (f a s).1)
    → Follows c (continue r f s).1
continue_conn-Follows c (ok a) f s h k = follows.chain h (k a)
continue_conn-Follows c (err e) f s h k = h

pub exec-Follows :
    (z : Zones) (args : List Value) (s : Conn × Stmt) → Follows s.0 (exec z args s).1.0
unfolding exec
exec-Follows z args s =
    continue-Follows s.0 (execute z args s).0 (λ out. pure out.0) (execute z args s).1
      (execute-Follows z args s) (λ out. follows.stay _)

pub exec_once-Follows :
    (z : Zones) (sql : Bytes) (args : List Value) (c : Conn) → Follows c (exec_once z sql args c).1
unfolding exec_once run_once prepare
exec_once-Follows z sql args c =
    let got = prepare sql 0 c in
    continue_conn-Follows c got.0 (run_once z args) got.1 ((Moves-request _ _).step c) λ s.
      follows.chain (exec-Follows z args (got.1, s)) (close_stmt-Follows (exec z args (got.1, s)).1)

done_once-Follows :
    (c : Conn) (out : Result ℤ × Conn) → Follows c out.1 → Follows c (done_once out).1
unfolding done_once
done_once-Follows c (ok n, s) h = h
done_once-Follows c (err e, s) h = h

pub named_sql-Follows :
    (z : Zones) (prefix name : Bytes) (c : Conn) → Follows c (named_sql z prefix name c).1
unfolding named_sql
named_sql-Follows z prefix name c =
    continue_conn-Follows c (check_savepoint_name name) _ c (follows.stay c) (λ u.
      done_once-Follows c (exec_once z (prefix ++ name) [] c)
        (exec_once-Follows z (prefix ++ name) [] c))
