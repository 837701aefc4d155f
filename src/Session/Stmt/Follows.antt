-- ===== src/Session/Stmt/Follows.antt =====
-- Executing, fetching and closing move a connection as every exchange does.
use gocubrid.Prelude.{get_elem?, ℤ, Bool, true, false, List, Option, none, some, if◌then◌else◌}
use gocubrid.Exec.{Result, ok, err, Exec, continue}
use gocubrid.Value.{Value}
use gocubrid.Wire.Reader.{Reader}
use gocubrid.Wire.Writer.{Writer}
use gocubrid.Protocol.Codec.DateTime.{Zones}
use gocubrid.Session.Conn.{Conn, round_trip}
use gocubrid.Session.Conn.Follows.{Follows, follows, Moves-request, Moves-round_trip}
use gocubrid.Session.Rows.{
  Rows, Cursor, fetch_next, serve, serve_row, Row, next, fetch_request, fill,
}
use gocubrid.Session.Stmt.{Stmt}
use gocubrid.Session.Stmt.Execute.{
  read_executed, execute, send_execute, respond, executed, query_rows, call_rows, close_stmt,
  cursor_of, new_rows, is_query,
}

pub by_case {ℓ κ} :
    {A : Type ℓ} {T : Type κ} (b : Bool) (s : Conn) (x y : Result A × (Conn × T))
    → Follows s x.1.0
    → Follows s y.1.0
    → Follows s (if b then x else y).1.0
by_case true s x y hx hy = hx
by_case false s x y hx hy = hy

pub continue-Follows {ℓ κ ι} :
    {A : Type ℓ} {B : Type κ} {T : Type ι} (c : Conn) (r : Result A) (f : A → Exec (Conn × T) B)
    (s : Conn × T)
    → Follows c s.0
    → ((a : A) → Follows s.0 (f a s).1.0)
    → Follows c (continue r f s).1.0
continue-Follows c (ok a) f s h k = follows.chain h (k a)
continue-Follows c (err e) f s h k = h

fetch_next-Follows : (z : Zones) (k : Cursor) (s : Conn × Rows) → Follows s.0 (fetch_next z k s).1.0
unfolding fetch_next fill
fetch_next-Follows z k s =
    continue-Follows s.0 (round_trip (fetch_request k s.1.next_index s.0) s.0).0 _ _
      ((Moves-round_trip _).step s.0) (λ rd. follows.stay _)

serve_row-Follows : (row : Option Row) (s : Conn × Rows) → Follows s.0 (serve_row row s).1.0
unfolding serve_row
serve_row-Follows (some row) s = follows.stay s.0
serve_row-Follows none s = follows.stay s.0

serve-Follows : (s : Conn × Rows) → Follows s.0 (serve s).1.0
unfolding serve
serve-Follows s = serve_row-Follows (get_elem? s.1.tuples s.1.position) s

pub next-Follows : (z : Zones) (k : Cursor) (s : Conn × Rows) → Follows s.0 (next z k s).1.0
unfolding next
next-Follows z k s = by_case s.1.closed s.0 _ _ (follows.stay s.0) (
    by_case _ s.0 _ _ (serve-Follows s) (
      continue-Follows s.0 (fetch_next z k s).0 _ _ (fetch_next-Follows z k s)
        (λ u. serve-Follows _)))

call_rows-Follows : (z : Zones) (rc : ℤ) (s : Conn × Stmt) → Follows s.0 (call_rows z rc s).1.0
unfolding call_rows
call_rows-Follows z rc s =
    let out = fetch_next z (cursor_of s.1) (s.0, new_rows s.1 rc) in
    continue-Follows s.0 out.0 _ (out.1.0, s.1)
      (fetch_next-Follows z (cursor_of s.1) (s.0, new_rows s.1 rc)) (λ u. follows.stay _)

executed-Follows :
    (z : Zones) (rd : Reader) (rc : ℤ) (s : Conn × Stmt) → Follows s.0 (executed z rd rc s).1.0
unfolding executed query_rows
executed-Follows z rd rc s =
    by_case (is_query s.1) s.0 _ _ (follows.stay s.0)
      (by_case _ s.0 _ _ (call_rows-Follows z rc s) (follows.stay s.0))

respond-Follows : (z : Zones) (r : Reader) (s : Conn × Stmt) → Follows s.0 (respond z r s).1.0
unfolding respond
respond-Follows z r s =
    let got = read_executed s.0.version r in
    continue-Follows s.0 got.0 (λ rc. executed z got.1 rc) s (follows.stay s.0)
      (λ rc. executed-Follows z got.1 rc s)

send_execute-Follows :
    (z : Zones) (out : Result (Unit {0}) × Writer) (s : Conn × Stmt)
    → Follows s.0 (send_execute z out s).1.0
unfolding send_execute
send_execute-Follows z (err e, w) s = follows.stay s.0
send_execute-Follows z (ok u, w) s =
    let sent = round_trip w.buf s.0 in
    continue-Follows s.0 sent.0 (respond z) (sent.1, s.1) ((Moves-round_trip w.buf).step s.0)
      (λ r. respond-Follows z r (sent.1, s.1))

pub execute-Follows :
    (z : Zones) (args : List Value) (s : Conn × Stmt) → Follows s.0 (execute z args s).1.0
unfolding execute
execute-Follows z args s =
    by_case s.1.closed s.0 _ _ (follows.stay s.0)
      (by_case _ s.0 _ _ (follows.stay s.0) (send_execute-Follows z _ _))

pub close_stmt-Follows : (s : Conn × Stmt) → Follows s.0 (close_stmt s).1.0
unfolding close_stmt
close_stmt-Follows s = by_case s.1.closed s.0 _ _ (follows.stay s.0) ((Moves-request _ _).step s.0)
