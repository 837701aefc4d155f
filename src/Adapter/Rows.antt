-- ===== src/Adapter/Rows.antt =====
-- rows.go of the root package: the step of `Next` that fetches a row and sorts its error. The
-- conversion of the values, which follows it, stands in Adapter/Values, and the whole of `Next` in
-- Adapter/Driver.
pub mod Lost
use gocubrid.Prelude.{if◌then◌else◌}
use gocubrid.Errors.{Error, eof, is_end}
use gocubrid.Exec.{Result, Exec, wrap}
use gocubrid.Protocol.Codec.DateTime.{Zones}
use gocubrid.Session.Conn.{Conn}
use gocubrid.Session.Rows.{Rows, Row, Cursor, next}
use gocubrid.Adapter.{map_err}

unfoldable pub row_error : Error → Error
row_error e = if is_end e then eof else map_err e

unfoldable pub next_row : Zones → Cursor → Exec (Conn × Rows) Row
next_row z k = wrap row_error (next z k)
