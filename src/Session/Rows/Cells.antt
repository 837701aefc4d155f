-- ===== src/Session/Rows/Cells.antt =====
-- The cells of a row as a broker writes them, and that `read_row` reads their values.
use gocubrid.Prelude.{
  ℤ, pos, negsuc, ◌^◌, ◌<◌, ◌≡◌, Bool, List, [], ◌∷◌, ◌++◌, length, map, to_word, is_neg,
  if◌then◌else◌, arith,
}
use gocubrid.Exec.{ok, pure, lift, wrap, ◌>>=◌}
use gocubrid.Errors.{column_failed}
use gocubrid.Bytes.{Bytes, be_bytes}
use gocubrid.Value.{Value}
use gocubrid.Wire.Reader.{Read, int32, bytes}
use gocubrid.Wire.Reader.Reads.{
  Reads, Reads-bind, Reads-pure, Reads-wrap, Reads-lift, Reads-int32, Reads-count, Reads-bytes,
}
use gocubrid.Protocol.Codec.DateTime.{Zones}
use gocubrid.Session.Column.{Column, decode_type}
use gocubrid.Session.Rows.{decode_cell, read_cell, read_row}

-- A cell that a broker sends: NULL as the size -1, or bytes behind their size, and the value that
-- they stand for.
pub data Cell : Type 0 where
  absent : Cell
  filled : Bytes → Value → Cell

abbrev pub cell_bytes : Cell → Bytes
cell_bytes absent = be_bytes 4 (to_word (2 ^ 31) (negsuc 0)) ++ []
cell_bytes (filled b v) = be_bytes 4 (length b) ++ (b ++ [])

abbrev pub cell_value : Cell → Value
cell_value absent = Value.null
cell_value (filled b v) = v

-- The bytes of each cell decode to its value, by the type of its column.
abbrev pub Stands : Zones → Bool → Column → Cell → Type 0
Stands z is_call col absent = Unit
Stands z is_call col (filled b v) =
    (decode_cell z is_call (decode_type col) b ≡ ok v) × (length b < 2 ^ 31)

abbrev pub StandsRow : Zones → Bool → List Column → List Cell → Type 0
StandsRow z is_call [] [] = Unit
StandsRow z is_call [] (c ∷ cs) = ⊥
StandsRow z is_call (col ∷ cols) [] = ⊥
StandsRow z is_call (col ∷ cols) (c ∷ cs) = Stands z is_call col c × StandsRow z is_call cols cs

abbrev pub row_bytes : List Cell → Bytes
row_bytes [] = []
row_bytes (c ∷ cs) = cell_bytes c ++ (row_bytes cs ++ [])

cell_body : Zones → Bool → Column → ℤ → Read Value
cell_body z is_call col sz = if is_neg sz then pure Value.null else (do
  b ← bytes sz
  wrap (column_failed col.name) (lift (decode_cell z is_call (decode_type col) b)))

Reads-read_cell :
    (z : Zones) (is_call : Bool) (col : Column) (c : Cell)
    → Stands z is_call col c
    → Reads (read_cell z is_call col) (cell_bytes c) (cell_value c)
unfolding read_cell cell_body
Reads-read_cell z is_call col absent h =
    Reads-bind int32 (cell_body z is_call col) _ [] (negsuc 0) Value.null
      (Reads-int32 (negsuc 0) (omega arith)) (Reads-pure Value.null)
Reads-read_cell z is_call col (filled b v) h =
    Reads-bind int32 (cell_body z is_call col) _ _ (pos (length b)) v (Reads-count (length b) h.1) (
      Reads-bind (bytes (pos (length b))) _ b [] b v (Reads-bytes b) (
        Reads-wrap (column_failed col.name) (lift (decode_cell z is_call (decode_type col) b)) [] v
          (Reads-lift _ v h.0)))

pub Reads-read_row :
    (z : Zones) (is_call : Bool) (cols : List Column) (cs : List Cell)
    → StandsRow z is_call cols cs
    → Reads (read_row z is_call cols) (row_bytes cs) (map cell_value cs)
unfolding read_row
Reads-read_row z is_call [] [] h = Reads-pure []
Reads-read_row z is_call [] (c ∷ cs) h = absurd h
Reads-read_row z is_call (col ∷ cols) [] h = absurd h
Reads-read_row z is_call (col ∷ cols) (c ∷ cs) h =
    Reads-bind (read_cell z is_call col) _ _ _ (cell_value c) _
      (Reads-read_cell z is_call col c h.0)
      (Reads-bind (read_row z is_call cols) _ _ [] (map cell_value cs) _
        (Reads-read_row z is_call cols cs h.1) (Reads-pure _))
