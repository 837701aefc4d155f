-- ===== src/Adapter/Statements/Closes.antt =====
-- Who closes the statement of a one-shot call: `ExecContext`, whatever the execution gives, and
-- `QueryContext`, if it gives no rows.
use gocubrid.Prelude.{ℤ, ◌≡◌, refl, ap, ◌∙◌, subst, true, false, List, [], ◌∷◌, ◌++◌, none}
use gocubrid.Errors.{Error}
use gocubrid.Exec.{Result, ok, err, continue, wrap_error, lift}
use gocubrid.Exec.Returns.{Returns}
use gocubrid.Bytes.{Bytes}
use gocubrid.Value.{Value}
use gocubrid.Wire.Reader.{Reader, Read}
use gocubrid.Protocol.Codec.DateTime.{Zones}
use gocubrid.Session.Conn.{Conn, next_exchange, request, round_trip, valid}
use gocubrid.Session.Stmt.{Stmt, prepare, read_stmt}
use gocubrid.Session.Stmt.Prepared.{read_stmt-IsPrepared}
use gocubrid.Session.Stmt.Execute.{exec, query, close_stmt, close_statement_request}
use gocubrid.Session.Stmt.Keeps.{
  exec-SameStmt, query-SameStmt, close_frame, close_stmt-sends, SameStmt,
}
use gocubrid.Adapter.{map_err, NamedValue, bind_args}
use gocubrid.Adapter.Statements.{
  exec_context, exec_prepared, query_context, query_prepared, prepare_context,
}

continue-returned {ℓ} :
    {A : Type ℓ} {P : A → Type 0} (r : Result Reader) (m : Read A) (c : Conn) (a : A)
    → Returns P m
    → (continue r (λ rd. lift (m rd).0) c).0 ≡ ok a
    → P a
continue-returned (ok rd) m c a h e = h.at rd a e
continue-returned (err x) m c a h e = absurd (cc)

-- A statement that PREPARE gives is open.
prepare-opens :
    (sql : Bytes) (c c1 : Conn) (s : Stmt) → prepare sql 0 c ≡ (ok s, c1) → s.closed ≡ false
unfolding prepare request
prepare-opens sql c c1 s e =
    (continue-returned (round_trip _ c).0 (read_stmt sql) (round_trip _ c).1 s
      (read_stmt-IsPrepared sql) (ap (λ t. t.0) e)).unused.0

-- What closing the statement sends, after it was prepared and used.
closes :
    (s : Stmt) (c1 : Conn) (after : Conn × Stmt)
    → s.closed ≡ false
    → SameStmt (c1, s) after
    → valid after.0 ≡ true
    → (next_exchange after.0.script).write_error ≡ none
    → (close_stmt after).1.0.sent
      ≡ after.0.sent
        ++ close_frame (close_statement_request s.handle after.0.auto_commit) after.0 ∷ []
closes s c1 after open_s same h w =
    close_stmt-sends after (same.closed ∙ open_s) h w
    ∙ ap
        (λ t.
          after.0.sent ++ close_frame (close_statement_request t after.0.auto_commit) after.0 ∷ [])
        same.handle

-- When the arguments bind and PREPARE succeeds, the execution of `ExecContext` gives the result, its
-- error mapped for the pool, and whatever it is, CLOSE_STATEMENT with the handle that PREPARE gave is
-- the last frame sent, if the connection is still usable and writes.
pub exec_context-closes :
    (z : Zones) (sql : Bytes) (args : List NamedValue) (vals : List Value) (c c1 : Conn) (s : Stmt)
    (r : Result ℤ) (after : Conn) (s' : Stmt)
    → bind_args args ≡ ok vals
    → prepare sql 0 c ≡ (ok s, c1)
    → exec z vals (c1, s) ≡ (r, (after, s'))
    → valid after ≡ true
    → (next_exchange after.script).write_error ≡ none
    → ((exec_context z sql args c).0 ≡ wrap_error map_err r)
      × ((exec_context z sql args c).1.sent
          ≡ after.sent
            ++ close_frame (close_statement_request s.handle after.auto_commit) after ∷ [])
unfolding exec_context exec_prepared prepare_context
exec_context-closes z sql args vals c c1 s r after s' b p x h w =
    let same = subst (λ t. SameStmt (c1, s) t.1) x (exec-SameStmt z vals (c1, s)) in
    rw (b, p, x) (refl, closes s c1 (after, s') (prepare-opens sql c c1 s p) same h w)

-- When the arguments bind and PREPARE succeeds but the query fails, `QueryContext` gives the error,
-- mapped for the pool, and CLOSE_STATEMENT with the handle that PREPARE gave is the last frame sent,
-- if the connection is still usable and writes: the statement is not leaked.
pub query_context-closes :
    (z : Zones) (sql : Bytes) (args : List NamedValue) (vals : List Value) (c c1 : Conn) (s : Stmt)
    (e : Error) (after : Conn) (s' : Stmt)
    → bind_args args ≡ ok vals
    → prepare sql 0 c ≡ (ok s, c1)
    → query z vals (c1, s) ≡ (err e, (after, s'))
    → valid after ≡ true
    → (next_exchange after.script).write_error ≡ none
    → ((query_context z sql args c).0 ≡ err (map_err e))
      × ((query_context z sql args c).1.sent
          ≡ after.sent
            ++ close_frame (close_statement_request s.handle after.auto_commit) after ∷ [])
unfolding query_context query_prepared prepare_context
query_context-closes z sql args vals c c1 s e after s' b p x h w =
    let same = subst (λ t. SameStmt (c1, s) t.1) x (query-SameStmt z vals (c1, s)) in
    rw (b, p, x) (refl, closes s c1 (after, s') (prepare-opens sql c c1 s p) same h w)
