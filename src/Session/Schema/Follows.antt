-- ===== src/Session/Schema/Follows.antt =====
-- Walking and listing schema rows moves a connection as every exchange does.
use gocubrid.Prelude.{
  ℕ, zero, suc, ℤ, pos, Bool, true, false, [], Option, none, some, if◌then◌else◌,
}
use gocubrid.Exec.{Result, ok, err}
use gocubrid.Bytes.{Bytes}
use gocubrid.Protocol.Codec.DateTime.{Zones}
use gocubrid.Session.Conn.{Conn}
use gocubrid.Session.Conn.Follows.{Follows, follows, Moves-request}
use gocubrid.Session.Rows.{Rows, Row, Cursor, next}
use gocubrid.Session.Rows.Ahead.{rows_ahead}
use gocubrid.Session.Stmt.{Stmt}
use gocubrid.Session.Stmt.Execute.{cursor_of, close_stmt}
use gocubrid.Session.Stmt.Follows.{next-Follows, close_stmt-Follows}
use gocubrid.Session.Schema.{schema_info, close_rows}
use gocubrid.Session.Schema.Drain.{Loop, visit, turn, drain, for_each_schema_row}
use gocubrid.Session.Schema.Listings.{
  listed, append_row, tables, table_info, columns, column_info, primary_key, key_column,
  foreign_keys, foreign_key, imported_keys, exported_keys,
}
use gocubrid.Session.Schema.Indexes.{indexes, and_then, constraint_row, no_groups}

pub schema_info-Follows :
    (typ : ℤ) (a1 a2 : Option Bytes) (p1 p2 : Bool) (c : Conn)
    → Follows c (schema_info typ a1 a2 p1 p2 c).1
unfolding schema_info
schema_info-Follows typ a1 a2 p1 p2 c = (Moves-request _ _).step c

by_closed_rows :
    (b : Bool) (c : Conn) (x y : Result (Unit {0}) × (Rows × (Conn × Stmt)))
    → Follows c x.1.1.0
    → Follows c y.1.1.0
    → Follows c (if b then x else y).1.1.0
by_closed_rows true c x y hx hy = hx
by_closed_rows false c x y hx hy = hy

pub close_rows-Follows : (r : Rows) (s : Conn × Stmt) → Follows s.0 (close_rows r s).1.1.0
unfolding close_rows
close_rows-Follows r s =
    let shut = record r { closed = true } in
    let released = close_stmt s in
    let owned = if r.owns_stmt then (released.0, (shut, released.1)) else (ok tt, (shut, s)) in
    by_closed_rows r.closed s.0 (ok tt, (r, s)) owned (follows.stay s.0)
      (by_closed_rows r.owns_stmt s.0 (released.0, (shut, released.1)) (ok tt, (shut, s))
        (close_stmt-Follows s) (follows.stay s.0))

module _ {ℓ} {B : Type ℓ} (z : Zones) (fn : Row → B → Result B) where
  visit-Follows :
      (more : B → Loop (Conn × Rows) B) (r : Result B) (s : Conn × Rows)
      → ((b : B) → Follows s.0 (more b s).1.0)
      → Follows s.0 (visit more r s).1.0
  visit-Follows more (ok b) s h = h b
  visit-Follows more (err e) s h = follows.stay s.0

  turn-Follows :
      (b : B) (more : B → Loop (Conn × Rows) B) (c : Conn) (out : Result Row × (Conn × Rows))
      → Follows c out.1.0
      → ((b' : B) → Follows out.1.0 (more b' out.1).1.0)
      → Follows c (turn fn b more out).1.0
  turn-Follows b more c (ok row, s) h g = follows.chain h (visit-Follows more (fn row b) s g)
  turn-Follows b more c (err e, s) h g = h

  drain-Follows :
      (fuel : ℕ) (k : Cursor) (b : B) (s : Conn × Rows) → Follows s.0 (drain fuel z k fn b s).1.0
  unfolding drain
  drain-Follows zero k b s = follows.stay s.0
  drain-Follows (suc fuel) k b s =
      turn-Follows b (λ b'. drain fuel z k fn b') s.0 (next z k s) (next-Follows z k s)
        (λ b'. drain-Follows fuel k b' (next z k s).1)

  for_each_schema_row-Follows :
      (b : B) (r : Rows) (s : Conn × Stmt) → Follows s.0 (for_each_schema_row z fn b (r, s)).1.1.0
  unfolding for_each_schema_row
  for_each_schema_row-Follows b r (c, s) =
      let out = drain (suc (rows_ahead (c, r))) z (cursor_of s) fn b (c, r) in
      follows.chain (drain-Follows (suc (rows_ahead (c, r))) (cursor_of s) b (c, r))
        (close_rows-Follows out.1.1 (out.1.0, s))

  listed-Follows :
      (b : B) (c : Conn) (out : Result (Stmt × Rows) × Conn)
      → Follows c out.1
      → Follows c (listed z fn b out).1
  unfolding listed
  listed-Follows b c (err e, d) h = h
  listed-Follows b c (ok (s, r), d) h = follows.chain h (for_each_schema_row-Follows b r (d, s))

pub tables-Follows : (z : Zones) (c : Conn) → Follows c (tables z c).1
unfolding tables
tables-Follows z c =
    listed-Follows z (append_row table_info) [] c _
      (schema_info-Follows (pos 1) none none true true c)

pub columns-Follows : (z : Zones) (table : Bytes) (c : Conn) → Follows c (columns z table c).1
unfolding columns
columns-Follows z table c =
    listed-Follows z (append_row column_info) [] c _
      (schema_info-Follows (pos 4) (some table) none false true c)

pub primary_key-Follows :
    (z : Zones) (table : Bytes) (c : Conn) → Follows c (primary_key z table c).1
unfolding primary_key
primary_key-Follows z table c =
    listed-Follows z (append_row key_column) [] c _
      (schema_info-Follows (pos 16) (some table) none true true c)

foreign_keys-Follows :
    (z : Zones) (typ : ℤ) (table : Bytes) (c : Conn) → Follows c (foreign_keys z typ table c).1
unfolding foreign_keys
foreign_keys-Follows z typ table c =
    listed-Follows z (append_row foreign_key) [] c _
      (schema_info-Follows typ (some table) none true true c)

pub imported_keys-Follows :
    (z : Zones) (table : Bytes) (c : Conn) → Follows c (imported_keys z table c).1
unfolding imported_keys
imported_keys-Follows z table c = foreign_keys-Follows z (pos 17) table c

pub exported_keys-Follows :
    (z : Zones) (table : Bytes) (c : Conn) → Follows c (exported_keys z table c).1
unfolding exported_keys
exported_keys-Follows z table c = foreign_keys-Follows z (pos 18) table c

and_then-Follows {ℓ κ} :
    {A : Type ℓ} {B : Type κ} (c : Conn) (out : Option (Result A) × Conn) (f : A → Loop Conn B)
    → Follows c out.1
    → ((a : A) → Follows out.1 (f a out.1).1)
    → Follows c (and_then out f).1
and_then-Follows c (none, d) f h g = h
and_then-Follows c (some (err e), d) f h g = h
and_then-Follows c (some (ok a), d) f h g = follows.chain h (g a)

pub indexes-Follows : (z : Zones) (table : Bytes) (c : Conn) → Follows c (indexes z table c).1
unfolding indexes
indexes-Follows z table c =
    let rows =
      listed z constraint_row no_groups (schema_info (pos 11) (some table) none false false c) in
    and_then-Follows c rows _
      (listed-Follows z constraint_row no_groups c _
        (schema_info-Follows (pos 11) (some table) none false false c))
      λ g.
        and_then-Follows rows.1 (primary_key z table rows.1) _ (primary_key-Follows z table rows.1)
          λ pk. follows.stay _
