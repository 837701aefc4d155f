-- ===== src/Session/Rows/Width.antt =====
-- Whatever bytes a block holds, a row that is read has one value for each column.
use gocubrid.Prelude.{suc, ◌≡◌, refl, ap, Bool, List, [], ◌∷◌, length}
use gocubrid.Exec.Returns.{Returns, Returns-pure, Returns-bind, Returns-bind_with}
use gocubrid.Protocol.Codec.DateTime.{Zones}
use gocubrid.Session.Column.{Column}
use gocubrid.Session.Rows.{read_row, read_cell}

-- A row that is read has one value for each column.
pub read_row-width :
    (z : Zones) (is_call : Bool) (cols : List Column)
    → Returns (λ row. length row ≡ length cols) (read_row z is_call cols)
unfolding read_row
read_row-width z is_call [] = Returns-pure [] refl
read_row-width z is_call (col ∷ cols) = Returns-bind (read_cell z is_call col) _ λ v.
    Returns-bind_with (read_row z is_call cols) _ (read_row-width z is_call cols)
      λ vs h. Returns-pure (v ∷ vs) (ap suc h)
