-- ===== src/Adapter/Values.antt =====
-- `toDriverValue` of value.go, and the column descriptions of rows.go in the root package.
pub mod Widens
pub mod Scans
pub mod Announced
use gocubrid.Prelude.{
  ℕ, zero, suc, ℤ, pos, ◌+◌, ◌-◌, ◌*◌, ◌/◌, ◌%◌, ◌^◌, Bool, true, false, List, [], ◌∷◌, map, Option,
  none, some, codes, ltb, ltb_ℤ, leb_ℤ, ◌==◌, if◌then◌else◌,
}
use gocubrid.Errors.{Error, lob_too_big, element_failed, nil_dereference}
use gocubrid.Exec.{Result, ok, err, Exec, pure, raise, wrap, ◌>>=◌}
use gocubrid.Bytes.{Bytes, one_of, same_bytes}
use gocubrid.Value.{Value, Values, nil, cons, Lob}
use gocubrid.Session.Conn.{Conn}
use gocubrid.Session.Column.{Column}
use gocubrid.Session.Column.Names.{type_name}
use gocubrid.Session.LobStream.{read_all}
use gocubrid.Adapter.{map_err}

abbrev pub max_lob_bytes : ℕ
max_lob_bytes = 2 ^ 20

-- The place of the highest bit: `fuel` halvings are enough for `fuel + 1` bits.
unfoldable pub top_bit : ℕ → ℕ → ℕ
top_bit zero m = 0
top_bit (suc fuel) m = let rest = top_bit fuel (m / 2) in if ltb m 2 then 0 else suc rest

-- The fields of a float64, put together from sign, exponent and fraction.
unfoldable pub bits_64 : ℕ → ℕ → ℕ → ℕ
bits_64 sign exponent fraction = sign * 2 ^ 63 + exponent * 2 ^ 52 + fraction

-- A float32 with exponent 0: zero, or a number without a leading one, which gets one.
unfoldable pub widen_subnormal : ℕ → ℕ → ℕ
widen_subnormal sign m =
    let p = top_bit 22 m in
    if m == 0 then bits_64 sign 0 0 else bits_64 sign (p + 874) ((m - 2 ^ p) * 2 ^ (52 - p))

-- Infinity, or a NaN, which comes out quiet.
unfoldable pub widen_special : ℕ → ℕ → ℕ
widen_special sign m = bits_64 sign 2047 (if m == 0 then 0 else m % 2 ^ 22 * 2 ^ 29 + 2 ^ 51)

-- `float64(v)` of a float32, on their IEEE bit patterns, as the language defines the conversion.
unfoldable pub widen : ℕ → ℕ
widen u =
    let sign = u / 2 ^ 31 % 2 in
    let exponent = u / 2 ^ 23 % 256 in
    let m = u % 2 ^ 23 in
    if exponent == 0
    then widen_subnormal sign m
    else if exponent == 255
    then widen_special sign m
    else bits_64 sign (exponent + 896) (m * 2 ^ 29)

-- A LOB is read whole, if it is not above the cap.
unfoldable pub lob_value : Lob → Exec Conn Value
lob_value l =
    if ltb_ℤ (pos max_lob_bytes) l.handle.size
    then raise (lob_too_big l.handle.size)
    else (do b ← wrap map_err (read_all l.handle); pure (Value.bytes b))

-- `toDriverValue`; a value of any other type is handed through.
unfoldable mutual
  pub to_driver_value : Value → Exec Conn Value
  to_driver_value (Value.int16 n) = pure (Value.int64 n)
  to_driver_value (Value.int32 n) = pure (Value.int64 n)
  to_driver_value (Value.float32 u) = pure (Value.float64 (widen u))
  to_driver_value (Value.lob l) = lob_value l
  to_driver_value Value.nil_lob = raise nil_dereference
  to_driver_value (Value.list vs) = do out ← to_driver_values 0 vs; pure (Value.list out)
  to_driver_value v = pure v

  -- The elements, from place `i` on.
  pub to_driver_values : ℕ → Values → Exec Conn Values
  to_driver_values i nil = pure nil
  to_driver_values i (cons v vs) = do
    w ← wrap (element_failed i) (to_driver_value v)
    ws ← to_driver_values (i + 1) vs
    pure (cons w ws)

-- `for i, v := range row { dest[i] = … }`: an error ends it.
unfoldable pub to_driver_row : List Value → Exec Conn (List Value)
to_driver_row [] = pure []
to_driver_row (v ∷ vs) = do w ← to_driver_value v; ws ← to_driver_row vs; pure (w ∷ ws)

-- `Columns`
unfoldable pub column_names : List Column → List Bytes
column_names cols = map (λ c. c.name) cols

-- `ColumnTypeLength`
unfoldable pub column_length : Column → Option ℤ
column_length c =
    if one_of (type_name c) (codes "VARCHAR" ∷ codes "NCHAR VARYING" ∷ codes "BIT VARYING" ∷ [])
    then some c.precision
    else if one_of (type_name c) (codes "BLOB" ∷ codes "CLOB" ∷ codes "JSON" ∷ [])
    then some (pos (2 ^ 63 - 1))
    else none

-- `ColumnTypePrecisionScale`
unfoldable pub column_precision_scale : Column → Option (ℤ × ℤ)
column_precision_scale c =
    if same_bytes (type_name c) (codes "NUMERIC") then some (c.precision, c.scale) else none

-- The Go types that `ColumnTypeScanType` gives.
pub data ScanType : Type 0 where
  int64 float64 string bytes time slice any : ScanType

unfoldable pub scan_type : Bytes → ScanType
scan_type name =
    if one_of name (codes "SMALLINT" ∷ codes "INTEGER" ∷ codes "BIGINT" ∷ [])
    then ScanType.int64
    else if one_of name (codes "FLOAT" ∷ codes "DOUBLE" ∷ codes "MONETARY" ∷ [])
    then ScanType.float64
    else if one_of name (
        codes "CHAR"
        ∷ codes "VARCHAR"
        ∷ codes "NCHAR"
        ∷ codes "NCHAR VARYING"
        ∷ codes "ENUM"
        ∷ codes "NUMERIC"
        ∷ [])
    then ScanType.string
    else if one_of name
        (codes "BIT" ∷ codes "BIT VARYING" ∷ codes "JSON" ∷ codes "BLOB" ∷ codes "CLOB" ∷ [])
    then ScanType.bytes
    else if one_of name (
        codes "DATE"
        ∷ codes "TIME"
        ∷ codes "TIMESTAMP"
        ∷ codes "DATETIME"
        ∷ codes "TIMESTAMPTZ"
        ∷ codes "TIMESTAMPLTZ"
        ∷ codes "DATETIMETZ"
        ∷ codes "DATETIMELTZ"
        ∷ [])
    then ScanType.time
    else if one_of name (codes "SET" ∷ codes "MULTISET" ∷ codes "SEQUENCE" ∷ [])
    then ScanType.slice
    else ScanType.any

unfoldable pub column_scan_type : Column → ScanType
column_scan_type c = scan_type (type_name c)
