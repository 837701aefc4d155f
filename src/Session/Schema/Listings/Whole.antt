-- ===== src/Session/Schema/Listings/Whole.antt =====
-- Listings of rows that the broker delivers, and of rows that it does not.
use gocubrid.Prelude.{
  pos, ◌≡◌, refl, ap, sym, ◌∙◌, true, false, List, [], ◌∷◌, ◌++◌, none, some, append_assoc,
  append-nil,
}
use gocubrid.Exec.{Result, ok, err, bind}
use gocubrid.Protocol.Codec.DateTime.{Zones}
use gocubrid.Session.Conn.{Conn}
use gocubrid.Session.Rows.{Rows, Row}
use gocubrid.Session.Rows.Delivers.{
  Delivers, EndsAt, IsFinished, IsFinished-EndsAt, IsCut, IsCut-EndsAt,
}
use gocubrid.Session.Stmt.{Stmt}
use gocubrid.Session.Stmt.Execute.{cursor_of}
use gocubrid.Session.Schema.{schema_info}
use gocubrid.Session.Schema.Drain.Visits.{visit_all, for_each_schema_row-visit_all}
use gocubrid.Session.Schema.Listings.{
  append_row, listed, tables, table_info, columns, column_info, ColumnInfo,
}
use gocubrid.Bytes.{Bytes}

-- One value for each row, or the first error.
abbrev pub each_row {ℓ} : {A : Type ℓ} → (Row → Result A) → List Row → Result (List A)
each_row parse [] = ok []
each_row parse (row ∷ rows) =
    bind (parse row) (λ a. bind (each_row parse rows) (λ as'. ok (a ∷ as')))

module _ {ℓ} {A : Type ℓ} (parse : Row → Result A) where
  added :
      (out : List A) (a : A) (r : Result (List A))
      → bind r (λ as'. ok ((out ++ a ∷ []) ++ as'))
        ≡ bind (bind r (λ as'. ok (a ∷ as'))) (λ as'. ok (out ++ as'))
  added out a (ok as') = ap ok (append_assoc out (a ∷ []) as')
  added out a (err e) = refl

  visit_added :
      (out : List A) (rows : List Row) (r : Result A)
      → ((out' : List A)
          → visit_all (append_row parse) rows out'
            ≡ bind (each_row parse rows) (λ as'. ok (out' ++ as')))
      → bind (bind r (λ a. ok (out ++ a ∷ []))) (visit_all (append_row parse) rows)
        ≡ bind
            (bind r (λ a. bind (each_row parse rows) (λ as'. ok (a ∷ as'))))
            (λ as'. ok (out ++ as'))
  visit_added out rows (ok a) h = h (out ++ a ∷ []) ∙ added out a (each_row parse rows)
  visit_added out rows (err e) h = refl

  visit_all-append_row :
      (rows : List Row) (out : List A)
      → visit_all (append_row parse) rows out ≡ bind (each_row parse rows) (λ as'. ok (out ++ as'))
  visit_all-append_row [] out = ap ok (sym (append-nil out))
  visit_all-append_row (row ∷ rows) out =
      visit_added out rows (parse row) (visit_all-append_row rows)

bind_ok {ℓ} : {A : Type ℓ} (r : Result A) → bind r (λ a. ok a) ≡ r
bind_ok (ok a) = refl
bind_ok (err e) = refl

listed-each_row {ℓ} :
    {A : Type ℓ} (z : Zones) (parse : Row → Result A) (c : Conn) (s : Stmt) (r : Rows)
    {Last : Conn × Rows → Type 0} (end : Conn × Rows) (rows : List Row)
    (got : Result (Stmt × Rows) × Conn)
    → got ≡ (ok (s, r), c)
    → ((t : Conn × Rows) → Last t → EndsAt z (cursor_of s) t)
    → Delivers z (cursor_of s) Last (c, r) rows end
    → (listed z (append_row parse) [] got).0 ≡ some (each_row parse rows)
unfolding listed
listed-each_row z parse c s r end rows got e last d =
    ap (λ t. (listed z (append_row parse) [] t).0) e
    ∙ for_each_schema_row-visit_all z (append_row parse) [] c s r end rows last d
    ∙ ap some (visit_all-append_row parse rows [] ∙ bind_ok (each_row parse rows))

-- When `SchemaInfo` succeeds and the broker then delivers all rows, `Tables` lists one table for each
-- of them, in order, or gives the error of the first row that is not one.
pub tables-each_row :
    (z : Zones) (c c' : Conn) (s : Stmt) (r : Rows) (end : Conn × Rows) (rows : List Row)
    → schema_info (pos 1) none none true true c ≡ (ok (s, r), c')
    → Delivers z (cursor_of s) IsFinished (c', r) rows end
    → (tables z c).0 ≡ some (each_row table_info rows)
unfolding tables
tables-each_row z c c' s r end rows e d =
    listed-each_row z table_info c' s r end rows _ e (IsFinished-EndsAt z (cursor_of s)) d

-- When the broker closes the socket in the middle of the rows, `Columns` lists what was delivered
-- before and reports no error, if every row so far is a column.
pub columns-cut :
    (z : Zones) (table : Bytes) (c c' : Conn) (s : Stmt) (r : Rows) (end : Conn × Rows)
    (rows : List Row) (found : List ColumnInfo)
    → schema_info (pos 4) (some table) none false true c ≡ (ok (s, r), c')
    → Delivers z (cursor_of s) IsCut (c', r) rows end
    → each_row column_info rows ≡ ok found
    → (columns z table c).0 ≡ some (ok found)
unfolding columns
columns-cut z table c c' s r end rows found e d f =
    listed-each_row z column_info c' s r end rows _ e (IsCut-EndsAt z (cursor_of s)) d ∙ ap some f
