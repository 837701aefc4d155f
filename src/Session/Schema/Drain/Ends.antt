-- ===== src/Session/Schema/Drain/Ends.antt =====
-- The loop over schema rows ends by itself, and leaves its rows closed.
use gocubrid.Prelude.{ℕ, zero, suc, ◌<◌, ◌≡◌, refl, true, Option, some, if◌then◌else◌, arith}
use gocubrid.Errors.{is_end}
use gocubrid.Exec.{Result, ok, err}
use gocubrid.Protocol.Codec.DateTime.{Zones}
use gocubrid.Session.Conn.{Conn}
use gocubrid.Session.Rows.{Rows, Row, Cursor, next}
use gocubrid.Session.Rows.Ahead.{rows_ahead, next_ahead}
use gocubrid.Session.Stmt.{Stmt}
use gocubrid.Session.Stmt.Execute.{cursor_of}
use gocubrid.Session.Schema.{close_rows}
use gocubrid.Session.Schema.Drain.{Loop, visit, turn, drain, for_each_schema_row}

abbrev pub Ended {ℓ} : {A : Type ℓ} → Option A → Type ℓ
Ended {A} o = (a : A) × (o ≡ some a)

module _ {ℓ} {B : Type ℓ} (z : Zones) (k : Cursor) (fn : Row → B → Result B) where
  visit-Ended :
      (more : B → Loop (Conn × Rows) B) (r : Result B) (s : Conn × Rows)
      → ((b : B) → Ended (more b s).0)
      → Ended (visit more r s).0
  visit-Ended more (ok b) s h = h b
  visit-Ended more (err e) s h = (err e, refl)

  turn-Ended :
      (b : B) (more : B → Loop (Conn × Rows) B) (got : Result Row × (Conn × Rows))
      → ((row : Row) → got.0 ≡ ok row → (b' : B) → Ended (more b' got.1).0)
      → Ended (turn fn b more got).0
  turn-Ended b more (ok row, s) h = visit-Ended more (fn row b) s (h row refl)
  turn-Ended b more (err e, s) h = ((if is_end e then ok b else err e), refl)

  pub drain-Ended :
      (fuel : ℕ) (b : B) (s : Conn × Rows) → rows_ahead s < fuel → Ended (drain fuel z k fn b s).0
  unfolding drain
  drain-Ended zero b s h = absurd (omega arith)
  drain-Ended (suc fuel) b s h =
      turn-Ended b (λ b'. drain fuel z k fn b') (next z k s)
        λ row got b'. drain-Ended fuel b' (next z k s).1 (omega (arith, next_ahead z k s row got))

close_rows-closed : (r : Rows) (s : Conn × Stmt) → (close_rows r s).1.0.closed ≡ true
unfolding close_rows
close_rows-closed r s = ground arith

-- Whatever the broker sends and whatever the callback does, the loop over schema rows ends, by the
-- fuel that it is given, with the callback's state or an error, and its rows are closed.
pub for_each_schema_row-Ended {ℓ} :
    {B : Type ℓ} (z : Zones) (fn : Row → B → Result B) (b : B) (s : Rows × (Conn × Stmt))
    → Ended (for_each_schema_row z fn b s).0 × ((for_each_schema_row z fn b s).1.0.closed ≡ true)
unfolding for_each_schema_row
for_each_schema_row-Ended z fn b (r, (c, s)) = (
  drain-Ended z (cursor_of s) fn (suc (rows_ahead (c, r))) b (c, r) (omega arith),
  close_rows-closed _ _,
)
