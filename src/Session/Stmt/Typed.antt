-- ===== src/Session/Stmt/Typed.antt =====
-- The rows of a query: their columns are those of the statement, and the values that came with the
-- response to EXECUTE are of these columns.
use gocubrid.Prelude.{
  ℤ, pos, ◌≡◌, refl, sym, subst, ◌∙◌, Bool, true, false, ◌&&◌, List, none, some, ltb, ltb_ℤ, length,
  not, ◌==◌, if◌then◌else◌,
}
use gocubrid.Errors.{stmt_closed, wrong_args}
use gocubrid.Exec.Returns.{ok-injective}
use gocubrid.Exec.{Result, ok, err, Exec, continue, bind, gets, ◌>>=◌}
use gocubrid.Exec.Moves.{Moves, Moves-bind, Moves-if}
use gocubrid.Value.{Value}
use gocubrid.Wire.Reader.{Reader, int32, remaining}
use gocubrid.Wire.Writer.{Writer}
use gocubrid.Protocol.Codes.{Version}
use gocubrid.Protocol.Codec.DateTime.{Zones}
use gocubrid.Session.Conn.{Conn, round_trip}
use gocubrid.Session.Rows.{
  Rows, Fetch, Cursor, fetch_next, on_reader, set_rows, consume_fetch, is_zero,
}
use gocubrid.Session.Rows.Typed.{
  KeepsFetch, keeps, Moves-on_reader, Moves-fetched, Moves-consume_fetch,
}
use gocubrid.Session.Rows.Served.{IsTyped, fetch_next-IsTyped}
use gocubrid.Session.Stmt.{Stmt, is_call}
use gocubrid.Session.Stmt.Keeps.{execute-SameStmt}
use gocubrid.Session.Stmt.Execute.{
  execute, send_execute, respond, executed, query_rows, call_rows, inline_block, mark_fetched,
  query, rows_of, encode_args, execute_header, read_executed, cursor_of, new_rows, is_query,
  Executed,
}

module _ (z : Zones) where
  -- Rows that an execution gave are of the statement's columns.
  abbrev pub Typed : Stmt → Result Executed → Type 0
  Typed s (ok (rc, some r)) = IsTyped z (cursor_of s) s.cols r
  Typed s (ok (rc, none)) = Unit
  Typed s (err e) = Unit

  Moves-inline_block :
      (ver : Version) (s : Stmt) (rc : ℤ)
      → Moves (KeepsFetch z (is_call s) s.cols) (inline_block z ver s rc)
  unfolding inline_block
  Moves-inline_block ver s rc =
      let k = keeps z (is_call s) s.cols in
      Moves-bind k (on_reader (gets remaining)) _
        (Moves-on_reader z (is_call s) s.cols (gets remaining))
        λ left.
          Moves-if (ltb_ℤ (pos 0) rc && ltb 4 left)
            (on_reader int32 >>= λ u. consume_fetch z ver (is_call s) s.cols)
            (set_rows (λ r. record r { fetched_all = is_zero rc }))
            (Moves-bind k (on_reader int32) _ (Moves-on_reader z (is_call s) s.cols int32)
              λ u. Moves-consume_fetch z (is_call s) s.cols ver)
            (Moves-fetched z (is_call s) s.cols (is_zero rc))

  bound :
      (s : Stmt) (rc : ℤ) (r : Result (Unit {0})) (rows : Rows)
      → IsTyped z (cursor_of s) s.cols rows
      → Typed s (bind r (λ u. ok (rc, some rows)))
  bound s rc (ok u) rows h = h
  bound s rc (err e) rows h = tt

  query_rows-Typed : (rc : ℤ) (rd : Reader) (s : Conn × Stmt) → Typed s.1 (query_rows z rc rd s).0
  unfolding query_rows
  query_rows-Typed rc rd (c, s) =
      let from : Fetch = record { reader = rd; rows = new_rows s rc } in
      let moved = (Moves-inline_block c.version s rc).step from in
      bound s rc (inline_block z c.version s rc from).0 (inline_block z c.version s rc from).1.rows
        (moved.0, moved.1 tt)

  mark_fetched-IsTyped :
      (k : Cursor) (s : Stmt) (rc : ℤ) (r : Rows)
      → IsTyped z k s.cols r
      → IsTyped z k s.cols (mark_fetched rc r)
  unfolding mark_fetched
  mark_fetched-IsTyped k s rc r h =
      elim (ltb_ℤ rc r.next_index)
        as (λ b. IsTyped z k s.cols (if b then record r { fetched_all = true } else r)) [
          | true ↦ h
          | false ↦ h
        ]

  continued {ℓ} :
      {A : Type ℓ} (s : Stmt) (r : Result A) (f : A → Exec (Conn × Stmt) Executed) (t : Conn × Stmt)
      → ((a : A) → Typed s (f a t).0)
      → Typed s (continue r f t).0
  continued s (ok a) f t h = h a
  continued s (err e) f t h = tt

  call_rows-Typed : (rc : ℤ) (s : Conn × Stmt) → Typed s.1 (call_rows z rc s).0
  unfolding call_rows
  call_rows-Typed rc (c, s) =
      let k = cursor_of s in
      let out = fetch_next z k (c, new_rows s rc) in
      continued s out.0 _ (out.1.0, s)
        λ u.
          mark_fetched-IsTyped k s rc out.1.1
            (fetch_next-IsTyped z k s.cols (c, new_rows s rc) (refl, tt))

  by_stmt :
      (b : Bool) (s : Stmt) (x y : Result Executed × (Conn × Stmt))
      → Typed s x.0
      → Typed s y.0
      → Typed s (if b then x else y).0
  by_stmt true s x y hx hy = hx
  by_stmt false s x y hx hy = hy

  executed-Typed : (rd : Reader) (rc : ℤ) (s : Conn × Stmt) → Typed s.1 (executed z rd rc s).0
  unfolding executed
  executed-Typed rd rc s =
      let other =
        if is_call s.1 && ltb_ℤ (pos 0) rc then call_rows z rc s else (ok (rc, none), s) in
      by_stmt (is_query s.1) s.1 (query_rows z rc rd s) other (query_rows-Typed rc rd s) (
        by_stmt (is_call s.1 && ltb_ℤ (pos 0) rc) s.1 (call_rows z rc s) (ok (rc, none), s)
          (call_rows-Typed rc s) tt)

  send_execute-Typed :
      (out : Result (Unit {0}) × Writer) (s : Conn × Stmt) → Typed s.1 (send_execute z out s).0
  unfolding send_execute respond
  send_execute-Typed (err e, w) s = tt
  send_execute-Typed (ok u, w) (c, s) =
      let sent = round_trip w.buf c in
      continued s sent.0 (respond z) (sent.1, s)
        λ r.
          let got = read_executed sent.1.version r in
          continued s got.0 (λ rc. executed z got.1 rc) (sent.1, s)
            (λ rc. executed-Typed got.1 rc (sent.1, s))

  execute-Typed : (args : List Value) (s : Conn × Stmt) → Typed s.1 (execute z args s).0
  unfolding execute is_call
  execute-Typed args s =
      let fresh = record s.1 { out_row = none } in
      let sent = send_execute z (encode_args 1 args (execute_header fresh args s.0)) (s.0, fresh) in
      let wrong : Result Executed × (Conn × Stmt) =
        (err (wrong_args s.1.param_count (length args)), s) in
      by_stmt s.1.closed s.1 (err stmt_closed, s)
        (if not (length args == s.1.param_count) then wrong else sent) tt
        (by_stmt (not (length args == s.1.param_count)) s.1 wrong sent tt
          (send_execute-Typed (encode_args 1 args (execute_header fresh args s.0)) (s.0, fresh)))

  queried :
      (s : Stmt) (out : Result Executed) (f : Executed → Exec (Conn × Stmt) Rows) (t : Conn × Stmt)
      (r : Rows)
      → ((o : Executed) → (f o t).0 ≡ ok (rows_of t.1 o))
      → t.1.cols ≡ s.cols
      → Typed s out
      → (continue out f t).0 ≡ ok r
      → IsTyped z (cursor_of s) s.cols r
  unfolding rows_of
  queried s (ok (rc, some rows)) f t r g same h e =
      subst (IsTyped z (cursor_of s) s.cols) (ok-injective (sym (g (rc, some rows)) ∙ e)) h
  queried s (ok (rc, none)) f t r g same h e =
      subst (IsTyped z (cursor_of s) s.cols) (ok-injective (sym (g (rc, none)) ∙ e)) (same, tt)
  queried s (err x) f t r g same h e = absurd (cc)

  -- The rows that `Query` returns are of the statement's columns.
  pub query-IsTyped :
      (args : List Value) (s : Conn × Stmt) (r : Rows)
      → (query z args s).0 ≡ ok r
      → IsTyped z (cursor_of s.1) s.1.cols r
  unfolding query
  query-IsTyped args s r e =
      queried s.1 (execute z args s).0 _ (execute z args s).1 r (λ o. refl)
        (execute-SameStmt z args s).cols (execute-Typed args s) e
