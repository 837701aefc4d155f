-- ===== src/Session/Stmt/Keeps.antt =====
-- The handle, the closed flag and the columns of a statement, which executing it leaves, and the
-- frame that closing it sends.
use gocubrid.Prelude.{
  ℤ, ◌≡◌, refl, ap, ◌∙◌, Bool, true, false, List, [], ◌∷◌, ◌++◌, none, if◌then◌else◌,
}
use gocubrid.Exec.{Result, ok, err, Exec, continue, lift}
use gocubrid.Exec.Moves.{IsPreorder}
use gocubrid.Bytes.{Bytes}
use gocubrid.Value.{Value}
use gocubrid.Wire.Reader.{Reader}
use gocubrid.Wire.Writer.{Writer}
use gocubrid.Protocol.Codec.DateTime.{Zones}
use gocubrid.Protocol.Frame.{Stream, write_request}
use gocubrid.Session.Conn.{
  Conn, Exchange, next_exchange, later_exchanges, request_cas_info, round_trip, request, exchange,
  receive, valid,
}
use gocubrid.Session.Conn.Trip.{round_trip-usable}
use gocubrid.Session.Rows.{fetch_next}
use gocubrid.Session.Stmt.{Stmt}
use gocubrid.Session.Stmt.Execute.{
  exec, execute, send_execute, respond, executed, query_rows, call_rows, query, read_executed,
  close_stmt, close_statement_request, read_closed, cursor_of, new_rows, is_query,
}

pub record SameStmt (s s' : Conn × Stmt) : Type 0 where
  pub handle : s'.1.handle ≡ s.1.handle
  pub closed : s'.1.closed ≡ s.1.closed
  pub cols : s'.1.cols ≡ s.1.cols

pub same_stmt : IsPreorder SameStmt
same_stmt = record {
  stay = λ s. record { handle = refl; closed = refl; cols = refl };
  chain = λ f g. record {
    handle = g.handle ∙ f.handle;
    closed = g.closed ∙ f.closed;
    cols = g.cols ∙ f.cols;
  };
}

by_stmt_case {ℓ} :
    {A : Type ℓ} (b : Bool) (s : Conn × Stmt) (x y : Result A × (Conn × Stmt))
    → SameStmt s x.1
    → SameStmt s y.1
    → SameStmt s (if b then x else y).1
by_stmt_case true s x y hx hy = hx
by_stmt_case false s x y hx hy = hy

continue-SameStmt {ℓ κ} :
    {A : Type ℓ} {B : Type κ} (s : Conn × Stmt) (r : Result A) (f : A → Exec (Conn × Stmt) B)
    (t : Conn × Stmt)
    → SameStmt s t
    → ((a : A) → SameStmt s (f a t).1)
    → SameStmt s (continue r f t).1
continue-SameStmt s (ok a) f t h k = k a
continue-SameStmt s (err e) f t h k = h

call_rows-SameStmt : (z : Zones) (rc : ℤ) (s : Conn × Stmt) → SameStmt s (call_rows z rc s).1
unfolding call_rows
call_rows-SameStmt z rc s =
    let out = fetch_next z (cursor_of s.1) (s.0, new_rows s.1 rc) in
    continue-SameStmt s out.0 _ (out.1.0, s.1)
      (record { handle = refl; closed = refl; cols = refl })
      (λ u. record { handle = refl; closed = refl; cols = refl })

executed-SameStmt :
    (z : Zones) (rd : Reader) (rc : ℤ) (s : Conn × Stmt) → SameStmt s (executed z rd rc s).1
unfolding executed query_rows
executed-SameStmt z rd rc s =
    by_stmt_case (is_query s.1) s _ _ (same_stmt.stay s)
      (by_stmt_case _ s _ _ (call_rows-SameStmt z rc s) (same_stmt.stay s))

send_execute-SameStmt :
    (z : Zones) (out : Result (Unit {0}) × Writer) (s : Conn × Stmt)
    → SameStmt s (send_execute z out s).1
unfolding send_execute respond
send_execute-SameStmt z (err e, w) s = same_stmt.stay s
send_execute-SameStmt z (ok u, w) s =
    let sent = round_trip w.buf s.0 in
    let kept : SameStmt s (sent.1, s.1) = record { handle = refl; closed = refl; cols = refl } in
    continue-SameStmt s sent.0 (respond z) (sent.1, s.1) kept
      (λ r.
        let got = read_executed sent.1.version r in
        continue-SameStmt s got.0 (λ rc. executed z got.1 rc) (sent.1, s.1) kept
          (λ rc. same_stmt.chain kept (executed-SameStmt z got.1 rc (sent.1, s.1))))

pub execute-SameStmt :
    (z : Zones) (args : List Value) (s : Conn × Stmt) → SameStmt s (execute z args s).1
unfolding execute
execute-SameStmt z args s = by_stmt_case s.1.closed s _ _ (same_stmt.stay s) (
    by_stmt_case _ s _ _ (same_stmt.stay s) (
      same_stmt.chain (record { handle = refl; closed = refl; cols = refl })
        (send_execute-SameStmt z _ _)))

pub exec-SameStmt : (z : Zones) (args : List Value) (s : Conn × Stmt) → SameStmt s (exec z args s).1
unfolding exec
exec-SameStmt z args s =
    continue-SameStmt s (execute z args s).0 _ (execute z args s).1 (execute-SameStmt z args s)
      (λ out. execute-SameStmt z args s)

pub query-SameStmt :
    (z : Zones) (args : List Value) (s : Conn × Stmt) → SameStmt s (query z args s).1
unfolding query
query-SameStmt z args s =
    continue-SameStmt s (execute z args s).0 _ (execute z args s).1 (execute-SameStmt z args s)
      (λ out. execute-SameStmt z args s)

-- The frame that closes the statement of a handle.
abbrev pub close_frame : Bytes → Conn → Bytes
close_frame payload c = write_request payload (request_cas_info c)

receive-sent :
    (e : Exchange) (c : Conn) (got : Result (Bytes × Bytes) × Stream)
    → (receive e c got).1.sent ≡ c.sent
unfolding receive
receive-sent e c (ok p, rest) = refl
receive-sent e c (err x, rest) = refl

round_trip-sends :
    (payload : Bytes) (c : Conn)
    → valid c ≡ true
    → (next_exchange c.script).write_error ≡ none
    → (round_trip payload c).1.sent ≡ c.sent ++ write_request payload (request_cas_info c) ∷ []
round_trip-sends payload c h w =
    let e = next_exchange c.script in
    let d = record c { script = later_exchanges c.script } in
    let frame = write_request payload (request_cas_info c) in
    ap (λ t. t.1.sent) (round_trip-usable payload c h)
    ∙ ap (λ t. (exchange t e frame d).1.sent) w
    ∙ unfold exchange in receive-sent e (record d { sent = d.sent ++ frame ∷ [] }) _

continue-state {ℓ κ} :
    {A : Type ℓ} {B : Type κ} (r : Result A) (f : A → Result B) (c : Conn)
    → (continue r (λ a. lift (f a)) c).1 ≡ c
continue-state (ok a) f c = refl
continue-state (err e) f c = refl

-- Closing an open statement over a usable connection whose next write succeeds sends one frame,
-- CLOSE_STATEMENT with the statement's handle.
pub close_stmt-sends :
    (s : Conn × Stmt)
    → s.1.closed ≡ false
    → valid s.0 ≡ true
    → (next_exchange s.0.script).write_error ≡ none
    → (close_stmt s).1.0.sent
      ≡ s.0.sent ++ close_frame (close_statement_request s.1.handle s.0.auto_commit) s.0 ∷ []
unfolding close_stmt request
close_stmt-sends s still h w = rw (still) (
    ap Conn.sent (continue-state (round_trip _ s.0).0 (λ r. (read_closed r).0) (round_trip _ s.0).1)
    ∙ round_trip-sends _ s.0 h w)
