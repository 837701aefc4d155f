-- ===== src/Session/Schema/Drain.antt =====
-- `forEachSchemaRow` of cubrid/schema.go. What its `fn` captures and changes is a state `B`; the
-- loop runs on fuel: one more than the bound on the rows to come.
pub mod Ends
pub mod Visits
use gocubrid.Prelude.{
  ℕ, zero, suc, ◌+◌, ◌-◌, List, [], ◌∷◌, length, Option, none, some, if◌then◌else◌,
}
use gocubrid.Errors.{Error, is_end}
use gocubrid.Exec.{Result, ok, err}
use gocubrid.Protocol.Codec.DateTime.{Zones}
use gocubrid.Session.Conn.{Conn}
use gocubrid.Session.Rows.{Rows, Row, Cursor, next}
use gocubrid.Session.Rows.Ahead.{rows_ahead}
use gocubrid.Session.Stmt.{Stmt}
use gocubrid.Session.Stmt.Execute.{cursor_of}
use gocubrid.Session.Schema.{close_rows}

-- What a loop gives: a result, or nothing if its fuel ran out.
abbrev pub Loop {ℓ κ} : Type ℓ → Type κ → Type (ℓ ⊔ κ)
Loop S A = S → Option (Result A) × S

module _ {ℓ} {B : Type ℓ} where
  -- `if err := fn(row); err != nil { return err }`
  abbrev pub visit : (B → Loop (Conn × Rows) B) → Result B → Loop (Conn × Rows) B
  visit more (ok b) s = more b s
  visit more (err e) s = (some (err e), s)

  -- One round, after its call of `Next`.
  abbrev pub turn :
      (Row → B → Result B)
      → B
      → (B → Loop (Conn × Rows) B)
      → Result Row × (Conn × Rows)
      → Option (Result B) × (Conn × Rows)
  turn fn b more (ok row, s) = visit more (fn row b) s
  turn fn b more (err e, s) = (some (if is_end e then ok b else err e), s)

  unfoldable pub drain : ℕ → Zones → Cursor → (Row → B → Result B) → B → Loop (Conn × Rows) B
  drain zero z k fn b s = (none, s)
  drain (suc fuel) z k fn b s = turn fn b (λ b'. drain fuel z k fn b') (next z k s)

module _ {ℓ} {B : Type ℓ} where
  -- `defer rows.Close()`, whose error is dropped.
  unfoldable pub for_each_schema_row :
      Zones → (Row → B → Result B) → B → Loop (Rows × (Conn × Stmt)) B
  for_each_schema_row z fn b (r, (c, s)) =
      let out = drain (suc (rows_ahead (c, r))) z (cursor_of s) fn b (c, r) in
      (out.0, (close_rows out.1.1 (out.1.0, s)).1)
