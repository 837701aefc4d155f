-- ===== src/Session/Rows/Spent.antt =====
-- How many rows a block can hold: every tuple takes more bytes off the response than it adds rows.
use gocubrid.Prelude.{
  ℕ, zero, suc, ℤ, pos, ◌+◌, ◌-◌, ◌≤◌, ◌&&◌, Bool, true, List, [], ◌∷◌, ◌++◌, length, length-append,
  is_neg, leb, pos_part, ◌==◌, arith,
}
use gocubrid.Errors.{column_failed}
use gocubrid.Value.{Value}
use gocubrid.Protocol.Status.{read_status}
use gocubrid.Exec.{gets}
use gocubrid.Exec.Costs.{
  Costs, Costs-pure, Costs-lift, Costs-if, Costs-bind, Costs-weaken, Costs-gets, Costs-then,
  Costs-wrap,
}
use gocubrid.Wire.Reader.{Read, remaining, byte, int32, bytes}
use gocubrid.Wire.Reader.Spent.{Costs-int32, Costs-bytes, Costs-byte}
use gocubrid.Protocol.Codes.{Version, at_least}
use gocubrid.Protocol.Codec.DateTime.{Zones}
use gocubrid.Protocol.Status.Spent.{Costs-read_status}
use gocubrid.Session.Column.{Column, decode_type}
use gocubrid.Session.Rows.{
  Rows, Fetch, Cursor, read_cell, read_row, on_reader, set_rows, next32, consume_tuple,
  consume_tuples, consume_end, consume_fetch, take_block, is_zero, decode_cell,
}

-- The rows in memory and not yet served, and the bytes of the response not yet read.
abbrev pub unserved : Rows → ℕ
unserved r = length r.tuples - r.position

abbrev pub fetch_weight : Fetch → ℕ
fetch_weight f = unserved f.rows + remaining f.reader

Costs-on_reader {ℓ} :
    {A : Type ℓ} (spend : ℕ) (m : Read A)
    → Costs remaining 0 spend m
    → Costs fetch_weight 0 spend (on_reader m)
Costs-on_reader spend m h = record { at = λ f a e. let p = h.at f.reader a e in omega arith }

Costs-set_rows :
    (gain : ℕ) (g : Rows → Rows)
    → ((r : Rows) → unserved (g r) ≤ unserved r + gain)
    → Costs fetch_weight gain 0 (set_rows g)
Costs-set_rows gain g h = record { at = λ f a e. let p = h f.rows in omega arith }

Costs-read_cell :
    (z : Zones) (is_call : Bool) (col : Column) → Costs remaining 0 0 (read_cell z is_call col)
unfolding read_cell
Costs-read_cell z is_call col = Costs-weaken 0 4 0 0 _ (omega arith) (
    Costs-bind 0 4 0 0 int32 _ Costs-int32 λ sz.
      Costs-if 0 0 (is_neg sz) _ _ (Costs-pure Value.null) (
        Costs-then (bytes sz) _ (Costs-weaken 0 (pos_part sz) 0 0 _ (omega arith) (Costs-bytes sz))
          λ b.
            Costs-wrap 0 0 (column_failed col.name) _
              (Costs-lift (decode_cell z is_call (decode_type col) b))))

Costs-read_row :
    (z : Zones) (is_call : Bool) (cols : List Column)
    → Costs remaining 0 0 (read_row z is_call cols)
unfolding read_row
Costs-read_row z is_call [] = Costs-pure []
Costs-read_row z is_call (col ∷ cols) =
    Costs-then (read_cell z is_call col) _ (Costs-read_cell z is_call col) λ v.
      Costs-then (read_row z is_call cols) _ (Costs-read_row z is_call cols)
        λ vs. Costs-pure (v ∷ vs)

-- A tuple adds a row, and takes its index and its OID off the response.
Costs-consume_tuple :
    (z : Zones) (is_call : Bool) (cols : List Column)
    → Costs fetch_weight 1 12 (consume_tuple z is_call cols)
unfolding consume_tuple
Costs-consume_tuple z is_call cols =
    Costs-bind 0 4 1 8 (on_reader int32) _ (Costs-on_reader 4 int32 Costs-int32) λ idx.
      Costs-bind 0 0 1 8 (set_rows (λ r. record r { next_index = next32 idx })) _
        (Costs-set_rows 0 (λ r. record r { next_index = next32 idx }) (λ r. omega arith))
        λ u.
          Costs-bind 0 8 1 0 (on_reader (bytes (pos 8))) _
            (Costs-on_reader 8 (bytes (pos 8)) (Costs-bytes (pos 8)))
            λ oid.
              Costs-bind 0 0 1 0 (on_reader (read_row z is_call cols)) _
                (Costs-on_reader 0 _ (Costs-read_row z is_call cols))
                λ row.
                  Costs-set_rows 1 (λ r. record r { tuples = r.tuples ++ row ∷ [] })
                    (λ r. omega (arith, length-append r.tuples (row ∷ [])))

Costs-consume_tuples :
    (z : Zones) (is_call : Bool) (cols : List Column) (n : ℕ)
    → Costs fetch_weight 0 0 (consume_tuples z is_call cols n)
unfolding consume_tuples
Costs-consume_tuples z is_call cols zero = Costs-pure tt
Costs-consume_tuples z is_call cols (suc n) =
    Costs-then (consume_tuple z is_call cols) _
      (Costs-weaken 1 12 0 0 _ (omega arith) (Costs-consume_tuple z is_call cols))
      λ u. Costs-consume_tuples z is_call cols n

Costs-set_fetched :
    (b : Bool) → Costs fetch_weight 0 0 (set_rows (λ r. record r { fetched_all = b }))
Costs-set_fetched b = Costs-set_rows 0 (λ r. record r { fetched_all = b }) (λ r. omega arith)

Costs-consume_end : (ver : Version) (n : ℤ) → Costs fetch_weight 0 0 (consume_end ver n)
unfolding consume_end
Costs-consume_end ver n =
    Costs-then (on_reader (gets remaining)) _ (Costs-on_reader 0 _ (Costs-gets remaining)) λ left.
      Costs-if 0 0 (at_least ver 5 && leb 1 left) _ _
        (Costs-then (on_reader byte) _
          (Costs-weaken 0 1 0 0 _ (omega arith) (Costs-on_reader 1 byte Costs-byte))
          λ fc. Costs-set_fetched (fc == 1))
        (Costs-if 0 0 (is_zero n) _ _ (Costs-set_fetched true) (Costs-pure tt))

Costs-consume_fetch :
    (z : Zones) (ver : Version) (is_call : Bool) (cols : List Column)
    → Costs fetch_weight 0 0 (consume_fetch z ver is_call cols)
unfolding consume_fetch
Costs-consume_fetch z ver is_call cols =
    Costs-then (on_reader int32) _
      (Costs-weaken 0 4 0 0 _ (omega arith) (Costs-on_reader 4 int32 Costs-int32))
      λ n.
        Costs-then (consume_tuples z is_call cols (pos_part n)) _
          (Costs-consume_tuples z is_call cols (pos_part n)) λ u. Costs-consume_end ver n

pub Costs-take_block :
    (z : Zones) (ver : Version) (k : Cursor) (cols : List Column)
    → Costs fetch_weight 0 0 (take_block z ver k cols)
unfolding take_block
Costs-take_block z ver k cols =
    Costs-then (on_reader read_status) _
      (Costs-weaken 0 4 0 0 _ (omega arith) (Costs-on_reader 4 read_status Costs-read_status))
      λ rc.
        Costs-then (set_rows (λ r. record r { tuples = []; position = 0 })) _
          (Costs-set_rows 0 (λ r. record r { tuples = []; position = 0 }) (λ r. omega arith))
          λ u. Costs-consume_fetch z ver k.is_call cols
