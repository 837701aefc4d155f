-- ===== src/Session/Column.antt =====
-- cubrid/stmt.go: the column metadata of PREPARE and of the schema requests.
pub mod Names
use gocubrid.Prelude.{
  ℕ, ℤ, pos, ◌/◌, Bool, false, not, bit_and, List, [], get_or, ◌==◌, if◌then◌else◌,
}
use gocubrid.Exec.{pure, each, ◌>>=◌}
use gocubrid.Bytes.{Bytes}
use gocubrid.Wire.Reader.{Read, byte, int16, int32, string}
use gocubrid.Protocol.Codes.Types

pub record Column : Type 0 where
  pub name : Bytes
  pub type_code : ℕ
  pub collection : ℕ
  pub charset : ℕ
  pub scale : ℤ
  pub precision : ℤ
  pub attr_name : Bytes
  pub table_name : Bytes
  pub nullable : Bool
  pub default_value : Bytes
  pub auto_increment : Bool
  pub unique_key : Bool
  pub primary_key : Bool
  pub foreign_key : Bool

-- `Column{}`
abbrev pub blank_column : Column
blank_column = record {
  name = [];
  type_code = 0;
  collection = 0;
  charset = 0;
  scale = pos 0;
  precision = pos 0;
  attr_name = [];
  table_name = [];
  nullable = false;
  default_value = [];
  auto_increment = false;
  unique_key = false;
  primary_key = false;
  foreign_key = false;
}

-- The type that a value is decoded on: the collection, where the column is one.
unfoldable pub decode_type : Column → ℕ
decode_type c =
    if c.collection == 1
    then Types.set
    else if c.collection == 2
    then Types.multiset
    else if c.collection == 3
    then Types.sequence
    else c.type_code

-- The extended form has the high bit set, the charset and the collection in the first byte, and the
-- type code in a second one.
unfoldable pub type_of_byte : Column → ℕ → Read Column
type_of_byte col tb =
    if not (bit_and tb 0x80 == 0)
    then (do
      code ← byte
      pure (record col {
        charset = bit_and tb 0x07;
        collection = bit_and tb 0x60 / 32;
        type_code = code;
      }))
    else pure (record col { type_code = bit_and tb 0x1f; collection = tb / 32 })

unfoldable pub read_column_type : Column → Read Column
read_column_type col = do tb ← byte; type_of_byte col tb

unfoldable pub is_one : ℕ → List ℕ → Bool
is_one i flags = get_or flags i 0 == 1

unfoldable pub read_column : Read Column
read_column = do
  col ← read_column_type blank_column
  scale ← int16
  precision ← int32
  name ← string
  attr_name ← string
  table_name ← string
  nb ← byte
  default_value ← string
  flags ← each 0 7 (λ _. byte)
  pure (record col {
    scale = scale;
    precision = precision;
    name = name;
    attr_name = attr_name;
    table_name = table_name;
    nullable = nb == 0;
    default_value = default_value;
    auto_increment = is_one 0 flags;
    unique_key = is_one 1 flags;
    primary_key = is_one 2 flags;
    foreign_key = is_one 5 flags;
  })
