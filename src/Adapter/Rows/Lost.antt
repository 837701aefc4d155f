-- ===== src/Adapter/Rows/Lost.antt =====
-- A connection that is lost between two blocks of a result, as the adapter reports it.
use gocubrid.Prelude.{◌≡◌, refl, ap, ◌∙◌, false, List}
use gocubrid.Errors.{eof, is_end}
use gocubrid.Exec.{err, wrap_error}
use gocubrid.Protocol.Codec.DateTime.{Zones}
use gocubrid.Session.Conn.{Conn, Exchange, valid}
use gocubrid.Session.Rows.{Rows, Cursor}
use gocubrid.Session.Rows.Lost.{IsLost, NeedsBlock, next-lost}
use gocubrid.Adapter.Rows.{row_error, next_row}

-- When the broker closes the socket between two blocks of a result, so that rows are missing, the
-- adapter's `Next` reports the end of the rows and not the lost connection, which it leaves bad.
pub next_row-lost :
    (z : Zones) (k : Cursor) (c : Conn) (r : Rows) (e : Exchange) (es : List Exchange)
    → NeedsBlock r
    → IsLost c e es
    → ((next_row z k (c, r)).0 ≡ err eof) × (valid (next_row z k (c, r)).1.0 ≡ false)
unfolding next_row row_error is_end
next_row-lost z k c r e es n h =
    let out = next-lost z k c r e es n h in
    (ap (λ t. wrap_error row_error t.0) out, ap (λ t. valid t.1.0) out ∙ unfold valid in refl)
