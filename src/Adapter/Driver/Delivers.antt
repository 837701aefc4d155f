-- ===== src/Adapter/Driver/Delivers.antt =====
-- What database/sql gets from a query: the values of every row have the Go types that the adapter
-- announces for the columns.
use gocubrid.Prelude.{
  ℕ, zero, suc, ◌+◌, ◌≡◌, refl, ap, sym, subst, ◌∙◌, false, ◌⊎◌, inl, inr, List, [], ◌∷◌, All,
  length,
}
use gocubrid.Exec.{Result, ok, err, each, continue, wrap_error, >>=-ok, ◌>>=◌, pure}
use gocubrid.Exec.Returns.{ok-injective}
use gocubrid.Value.{Value}
use gocubrid.Protocol.Codec.DateTime.{Zones}
use gocubrid.Session.Conn.{Conn}
use gocubrid.Session.Column.{Column}
use gocubrid.Session.Rows.{Rows, Row, Cursor, next}
use gocubrid.Session.Rows.Typed.{IsRow, IsCell}
use gocubrid.Session.Rows.Served.{IsTyped, Serves, next-Serves}
use gocubrid.Session.Stmt.{Stmt, is_call}
use gocubrid.Session.Stmt.Execute.{query, cursor_of}
use gocubrid.Session.Stmt.Typed.{query-IsTyped}
use gocubrid.Adapter.Rows.{next_row, row_error}
use gocubrid.Adapter.Values.{to_driver_value, to_driver_row, column_scan_type}
use gocubrid.Adapter.Values.Widens.{HasScan}
use gocubrid.Adapter.Values.Announced.{to_driver_value-HasScan}
use gocubrid.Adapter.Driver.{next_values}

-- NULL, or of the type that `ColumnTypeScanType` announces, for every column.
abbrev pub HasTypes : List Column → List Value → Type 0
HasTypes [] [] = Unit
HasTypes [] (v ∷ vs) = ⊥
HasTypes (col ∷ cols) [] = ⊥
HasTypes (col ∷ cols) (v ∷ vs) =
    ((v ≡ Value.null) ⊎ HasScan (column_scan_type col) v) × HasTypes cols vs

cell_typed :
    (z : Zones) (col : Column) (v w : Value) (c : Conn)
    → IsCell z false col v
    → (to_driver_value v c).0 ≡ ok w
    → (w ≡ Value.null) ⊎ HasScan (column_scan_type col) w
unfolding to_driver_value
cell_typed z col v w c (inl e) h =
    inl (sym (ok-injective (subst (λ t. (to_driver_value t c).0 ≡ ok w) e h)))
cell_typed z col v w c (inr (b, e)) h = inr (to_driver_value-HasScan col z b v c w e h)

to_driver_row-HasTypes :
    (z : Zones) (cols : List Column) (row ws : List Value) (c : Conn)
    → IsRow z false cols row
    → (to_driver_row row c).0 ≡ ok ws
    → HasTypes cols ws
unfolding to_driver_row
to_driver_row-HasTypes z [] [] ws c h e = subst (HasTypes []) (ok-injective e) tt
to_driver_row-HasTypes z [] (v ∷ row) ws c h e = absurd h
to_driver_row-HasTypes z (col ∷ cols) [] ws c h e = absurd h
to_driver_row-HasTypes z (col ∷ cols) (v ∷ row) ws c h e =
    let (w, got, more) =
      >>=-ok (to_driver_value v) (λ w. to_driver_row row >>= λ rest. pure (w ∷ rest)) c ws e in
    let d = (to_driver_value v c).1 in
    let e' = sym (ap (λ t. t.0) more) ∙ e in
    let (rest, got', more') = >>=-ok (to_driver_row row) (λ rest. pure (w ∷ rest)) d ws e' in
    subst (HasTypes (col ∷ cols)) (ok-injective (sym (ap (λ t. t.0) more') ∙ e'))
      (cell_typed z col v w c h.0 got, to_driver_row-HasTypes z cols row rest d h.1 got')

-- One call of `Next`: what it gives, and what it leaves.
abbrev Delivers : Zones → Cursor → List Column → Result (List Value) × (Conn × Rows) → Type 0
Delivers z k cols out =
    IsTyped z k cols out.1.1 × ((vs : List Value) → out.0 ≡ ok vs → HasTypes cols vs)

converted :
    (z : Zones) (k : Cursor) (cols : List Column) (r : Result Row) (s : Conn × Rows)
    → k.is_call ≡ false
    → Serves z k cols (r, s)
    → Delivers z k cols (
        continue
          (wrap_error row_error r)
          (λ row t. ((to_driver_row row t.0).0, ((to_driver_row row t.0).1, t.1)))
          s)
converted z k cols (ok row) (c, rows) plain h =
    let typed = subst (λ b. IsRow z b cols row) plain (h.1 row refl) in
    (h.0, λ vs e. to_driver_row-HasTypes z cols row vs c typed e)
converted z k cols (err x) s plain h = (h.0, λ vs e. absurd (cc))

next_values-Delivers :
    (z : Zones) (k : Cursor) (cols : List Column) (s : Conn × Rows)
    → k.is_call ≡ false
    → IsTyped z k cols s.1
    → Delivers z k cols (next_values z k s)
unfolding next_values next_row
next_values-Delivers z k cols s plain h =
    converted z k cols (next z k s).0 (next z k s).1 plain (next-Serves z k cols s h)

each-HasTypes :
    (z : Zones) (k : Cursor) (cols : List Column) (i n : ℕ) (s : Conn × Rows)
    (rows : List (List Value))
    → k.is_call ≡ false
    → IsTyped z k cols s.1
    → (each i n (λ i. next_values z k) s).0 ≡ ok rows
    → (length rows ≡ n) × All (HasTypes cols) rows
unfolding each
each-HasTypes z k cols i zero s rows plain h e =
    subst (λ t. (length t ≡ zero) × All (HasTypes cols) t) (ok-injective e) (refl, tt)
each-HasTypes z k cols i (suc n) s rows plain h e =
    let d = next_values-Delivers z k cols s plain h in
    let t = (next_values z k s).1 in
    let (vs, got, more) =
      >>=-ok (next_values z k)
        (λ vs. each (i + 1) n (λ i. next_values z k) >>= λ rest. pure (vs ∷ rest)) s rows e in
    let e' = sym (ap (λ t. t.0) more) ∙ e in
    let (rest, got', more') =
      >>=-ok (each (i + 1) n (λ i. next_values z k)) (λ rest. pure (vs ∷ rest)) t rows e' in
    let (size, all) = each-HasTypes z k cols (i + 1) n t rest plain d.0 got' in
    subst (λ t. (length t ≡ suc n) × All (HasTypes cols) t)
      (ok-injective (sym (ap (λ t. t.0) more') ∙ e')) (ap suc size, (d.1 vs got, all))

-- Whatever a broker sends: when a query that is no CALL returns rows and `n` calls of `Next` each
-- give a row, every value of these rows is NULL or has the Go type that `ColumnTypeScanType`
-- announces for its column.
pub query-HasTypes :
    (z : Zones) (args : List Value) (c c' : Conn) (s s' : Stmt) (r : Rows) (n : ℕ)
    (rows : List (List Value))
    → is_call s ≡ false
    → query z args (c, s) ≡ (ok r, (c', s'))
    → (each 0 n (λ i. next_values z (cursor_of s)) (c', r)).0 ≡ ok rows
    → (length rows ≡ n) × All (HasTypes s.cols) rows
query-HasTypes z args c c' s s' r n rows plain q e =
    each-HasTypes z (cursor_of s) s.cols 0 n (c', r) rows plain
      (query-IsTyped z args (c, s) r (ap (λ t. t.0) q)) e
