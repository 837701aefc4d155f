-- ===== src/Adapter/Statements/Twice.antt =====
-- Closing a statement, and the rows of a query, twice.
use gocubrid.Prelude.{◌≡◌, refl, ap, ◌∙◌, Bool, true, false, arith}
use gocubrid.Exec.{Result, ok}
use gocubrid.Session.Conn.{Conn}
use gocubrid.Session.Rows.{Rows}
use gocubrid.Session.Stmt.{Stmt}
use gocubrid.Session.Stmt.Execute.{close_stmt}
use gocubrid.Session.Schema.{close_rows}
use gocubrid.Adapter.Statements.{Results, close_owned, rows_close}

-- A closed statement is left alone.
close_stmt-again : (s : Conn × Stmt) → s.1.closed ≡ true → close_stmt s ≡ (ok tt, s)
unfolding close_stmt
close_stmt-again s h = rw (h) refl

close_stmt-closed : (s : Conn × Stmt) → (close_stmt s).1.1.closed ≡ true
unfolding close_stmt
close_stmt-closed s = ground arith

close_rows-again : (r : Rows) (s : Conn × Stmt) → r.closed ≡ true → close_rows r s ≡ (ok tt, (r, s))
unfolding close_rows
close_rows-again r s h = rw (h) refl

close_rows-closed : (r : Rows) (s : Conn × Stmt) → (close_rows r s).1.0.closed ≡ true
unfolding close_rows
close_rows-closed r s = ground arith

-- Rows that are closed, with their statement if they own it.
abbrev pub IsReleased : Results → Type 0
IsReleased r = (r.native.closed ≡ true) × (r.owns ≡ true → r.stmt.closed ≡ true)

close_owned-IsReleased :
    (owns : Bool) (out : Result (Unit {0}) × (Rows × (Conn × Stmt)))
    → out.1.0.closed ≡ true
    → IsReleased (close_owned owns out).1.1
unfolding close_owned
close_owned-IsReleased false (e, (r, (c, s))) h = (h, λ k. cc)
close_owned-IsReleased true (e, (r, s)) h = (h, λ k. close_stmt-closed s)

close_owned-again :
    (owns : Bool) (c : Conn) (n : Rows) (s : Stmt)
    → (owns ≡ true → s.closed ≡ true)
    → close_owned owns (ok tt, (n, (c, s)))
      ≡ (ok tt, (c, record { native = n; stmt = s; owns = owns }))
unfolding close_owned
close_owned-again true c n s h = rw (close_stmt-again (c, s) (h refl)) refl
close_owned-again false c n s h = refl

rows_close-again : (c : Conn) (r : Results) → IsReleased r → rows_close (c, r) ≡ (ok tt, (c, r))
unfolding rows_close
rows_close-again c r h =
    ap (close_owned r.owns) (close_rows-again r.native (c, r.stmt) h.0)
    ∙ close_owned-again r.owns c r.native r.stmt h.1

-- Whatever closing the rows of a query gives, they are closed after it, and so is the statement that
-- they own; a second call succeeds, sends nothing and changes nothing.
pub rows_close-IsReleased :
    (c : Conn) (r : Results)
    → let after = (rows_close (c, r)).1 in IsReleased after.1 × (rows_close after ≡ (ok tt, after))
unfolding rows_close
rows_close-IsReleased c r =
    let h =
      close_owned-IsReleased r.owns (close_rows r.native (c, r.stmt))
        (close_rows-closed r.native (c, r.stmt)) in
    (h, rows_close-again _ _ h)
