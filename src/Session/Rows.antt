-- ===== src/Session/Rows.antt =====
-- cubrid/rows.go: the rows of a result. They come in blocks, the first one with the response to
-- EXECUTE; the state of a fetch is the reader over the block and the rows it fills.
pub mod Serve
pub mod Width
pub mod Typed
pub mod Served
pub mod Fills
pub mod Cells
pub mod Block
pub mod Spent
pub mod Ahead
pub mod Delivers
pub mod Lost
use gocubrid.Prelude.{
  ℕ, zero, suc, ℤ, pos, ◌+◌, ◌^◌, Bool, true, false, ◌&&◌, ◌||◌, List, [], ◌∷◌, ◌++◌, length,
  get_elem?, Option, none, some, leb, ltb, is_neg, pos_part, ◌+ℤ◌, of_word, to_word, ◌==◌,
  if◌then◌else◌,
}
use gocubrid.Errors.{Error, eof, rows_closed, column_failed}
use gocubrid.Exec.{Result, ok, err, Exec, pure, raise, lift, gets, wrap, modify, bind, ◌>>=◌, ◌>>◌}
use gocubrid.Bytes.{Bytes}
use gocubrid.Value.{Value, Lob}
use gocubrid.Wire.Writer.{Writer, ◌▹◌, new_writer, raw_byte, arg_int, arg_byte}
use gocubrid.Wire.Reader.{Reader, Read, byte, int32, bytes, remaining}
use gocubrid.Protocol.Codes.{Version, at_least}
use gocubrid.Protocol.Codes.Types
use gocubrid.Protocol.Codes.Functions
use gocubrid.Protocol.LobHandle.{LobHandle, parse_lob_handle}
use gocubrid.Protocol.Status.{read_status}
use gocubrid.Protocol.Codec.DateTime.{Zones}
use gocubrid.Protocol.Codec.Decode.{decode_value, decode_self_described}
use gocubrid.Session.Conn.{Conn, round_trip}
use gocubrid.Session.Column.{Column, decode_type}

abbrev pub Row : Type 0
Row = List Value

-- `Rows`: what it reads of its statement is passed to the methods.
pub record Rows : Type 0 where
  pub cols : List Column
  pub tuples : List Row
  pub position : ℕ
  pub next_index : ℤ
  pub total_rows : ℤ
  pub fetched_all : Bool
  pub closed : Bool
  pub owns_stmt : Bool

pub record Fetch : Type 0 where
  pub reader : Reader
  pub rows : Rows

-- What `Rows` uses of its `Stmt`: the handle, and whether it is a CALL.
pub record Cursor : Type 0 where
  pub handle : ℤ
  pub is_call : Bool

-- A packed handle in a result column is a read-only LOB.
unfoldable pub result_lob : ℕ → Bytes → Result Value
result_lob typ packed =
    bind (parse_lob_handle packed)
      (λ h. ok (Value.lob (record { handle = h; is_clob = typ == Types.clob; writable = false })))

-- Rows of a CALL carry their own types; so do columns of type NULL.
unfoldable pub decode_cell : Zones → Bool → ℕ → Bytes → Result Value
decode_cell z is_call typ b =
    if is_call || typ == Types.null
    then decode_self_described z b
    else if typ == Types.blob || typ == Types.clob
    then result_lob typ b
    else decode_value z typ b

unfoldable pub read_cell : Zones → Bool → Column → Read Value
read_cell z is_call col = do
  sz ← int32
  if is_neg sz then pure Value.null else do
    b ← bytes sz
    wrap (column_failed col.name) (lift (decode_cell z is_call (decode_type col) b))

-- `for j := range r.cols`
unfoldable pub read_row : Zones → Bool → List Column → Read Row
read_row z is_call [] = pure []
read_row z is_call (col ∷ cols) = do
  v ← read_cell z is_call col
  vs ← read_row z is_call cols
  pure (v ∷ vs)

abbrev pub on_reader {ℓ} : {A : Type ℓ} → Read A → Exec Fetch A
on_reader m f = ((m f.reader).0, record f { reader = (m f.reader).1 })

abbrev pub set_rows : (Rows → Rows) → Exec Fetch (Unit {0})
set_rows g = modify (λ f. record f { rows = g f.rows })

-- `idx + 1` of an int32.
unfoldable pub next32 : ℤ → ℤ
next32 i = of_word (2 ^ 31) (to_word (2 ^ 31) (i +ℤ pos 1))

-- One tuple: the cursor index, an OID, the row.
unfoldable pub consume_tuple : Zones → Bool → List Column → Exec Fetch (Unit {0})
consume_tuple z is_call cols = do
  idx ← on_reader int32
  set_rows (λ r. record r { next_index = next32 idx })
  on_reader (bytes (pos 8))
  row ← on_reader (read_row z is_call cols)
  set_rows (λ r. record r { tuples = r.tuples ++ row ∷ [] })

unfoldable pub consume_tuples : Zones → Bool → List Column → ℕ → Exec Fetch (Unit {0})
consume_tuples z is_call cols zero = pure tt
consume_tuples z is_call cols (suc n) = do
  consume_tuple z is_call cols
  consume_tuples z is_call cols n

unfoldable pub is_zero : ℤ → Bool
is_zero n = if is_neg n then false else pos_part n == 0

-- The end of a block: the fetch-completed byte from V5 on, if there is one; else an empty block is
-- the last.
unfoldable pub consume_end : Version → ℤ → Exec Fetch (Unit {0})
consume_end ver n = do
  left ← on_reader (gets remaining)
  if at_least ver 5 && leb 1 left
      then (do fc ← on_reader byte; set_rows (λ r. record r { fetched_all = fc == 1 }))
      else (if is_zero n then set_rows (λ r. record r { fetched_all = true }) else pure tt)

unfoldable pub consume_fetch : Zones → Version → Bool → List Column → Exec Fetch (Unit {0})
consume_fetch z ver is_call cols = do
  n ← on_reader int32
  consume_tuples z is_call cols (pos_part n)
  consume_end ver n

abbrev pub on_conn {ℓ κ} : {S : Type ℓ} {A : Type κ} → Exec Conn A → Exec (Conn × S) A
on_conn m s = ((m s.0).0, ((m s.0).1, s.1))

unfoldable pub fetch_request : Cursor → ℤ → Conn → Bytes
fetch_request k index c =
    (new_writer
      ▹ raw_byte Functions.fetch
      ▹ arg_int k.handle
      ▹ arg_int index
      ▹ arg_int (of_word (2 ^ 31) (to_word (2 ^ 31) c.fetch_size))
      ▹ arg_byte 0
      ▹ arg_int (pos 0)).buf

-- After the response came: its status, then the old block gives way to the new one.
unfoldable pub take_block : Zones → Version → Cursor → List Column → Exec Fetch (Unit {0})
take_block z ver k cols = do
  on_reader read_status
  set_rows (λ r. record r { tuples = []; position = 0 })
  consume_fetch z ver k.is_call cols

unfoldable pub fill : Zones → Cursor → Reader → Exec (Conn × Rows) (Unit {0})
fill z k rd s =
    let out = take_block z s.0.version k s.1.cols (record { reader = rd; rows = s.1 }) in
    (out.0, (s.0, out.1.rows))

unfoldable pub fetch_next : Zones → Cursor → Exec (Conn × Rows) (Unit {0})
fetch_next z k s =
    (do rd ← on_conn (round_trip (fetch_request k s.1.next_index s.0)); fill z k rd) s

-- `if r.pos < len(r.tuples) { row := …; r.pos++; return row, nil }`, else the end.
unfoldable pub serve_row : Option Row → Exec (Conn × Rows) Row
serve_row (some row) s = (ok row, (s.0, record s.1 { position = s.1.position + 1 }))
serve_row none s = (err eof, s)

unfoldable pub serve : Exec (Conn × Rows) Row
serve s = serve_row (get_elem? s.1.tuples s.1.position) s

-- `Next`
unfoldable pub next : Zones → Cursor → Exec (Conn × Rows) Row
next z k s =
    if s.1.closed
    then (err rows_closed, s)
    else if ltb s.1.position (length s.1.tuples) || s.1.fetched_all
    then serve s
    else (do fetch_next z k; serve) s
