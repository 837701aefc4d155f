-- ===== src/Session/Column/Names.antt =====
-- `TypeName` of cubrid/stmt.go.
use gocubrid.Prelude.{ℕ, List, [], ◌∷◌, codes, ◌==◌, if◌then◌else◌}
use gocubrid.Bytes.{Bytes}
use gocubrid.Protocol.Codes.Types
use gocubrid.Session.Column.{Column}

-- The cases of a switch on a type code; no case gives "".
unfoldable pub name_in : ℕ → List (ℕ × Bytes) → Bytes
name_in t [] = []
name_in t ((k, name) ∷ cases) = let rest = name_in t cases in if t == k then name else rest

abbrev pub type_names : List (ℕ × Bytes)
type_names =
    (Types.null, codes "NULL")
    ∷ (Types.char, codes "CHAR")
    ∷ (Types.varchar, codes "VARCHAR")
    ∷ (Types.nchar, codes "NCHAR")
    ∷ (Types.var_nchar, codes "NCHAR VARYING")
    ∷ (Types.bit, codes "BIT")
    ∷ (Types.varbit, codes "BIT VARYING")
    ∷ (Types.numeric, codes "NUMERIC")
    ∷ (Types.int, codes "INTEGER")
    ∷ (Types.u_int, codes "INTEGER")
    ∷ (Types.short, codes "SMALLINT")
    ∷ (Types.u_short, codes "SMALLINT")
    ∷ (Types.monetary, codes "MONETARY")
    ∷ (Types.float, codes "FLOAT")
    ∷ (Types.double, codes "DOUBLE")
    ∷ (Types.date, codes "DATE")
    ∷ (Types.time, codes "TIME")
    ∷ (Types.timestamp, codes "TIMESTAMP")
    ∷ (Types.set, codes "SET")
    ∷ (Types.multiset, codes "MULTISET")
    ∷ (Types.sequence, codes "SEQUENCE")
    ∷ (Types.object, codes "OBJECT")
    ∷ (Types.resultset, codes "RESULTSET")
    ∷ (Types.bigint, codes "BIGINT")
    ∷ (Types.u_bigint, codes "BIGINT")
    ∷ (Types.datetime, codes "DATETIME")
    ∷ (Types.blob, codes "BLOB")
    ∷ (Types.clob, codes "CLOB")
    ∷ (Types.enum, codes "ENUM")
    ∷ (Types.timestamp_tz, codes "TIMESTAMPTZ")
    ∷ (Types.timestamp_ltz, codes "TIMESTAMPLTZ")
    ∷ (Types.datetime_tz, codes "DATETIMETZ")
    ∷ (Types.datetime_ltz, codes "DATETIMELTZ")
    ∷ (Types.json, codes "JSON")
    ∷ []

unfoldable pub type_name : Column → Bytes
type_name c =
    if c.collection == 1
    then codes "SET"
    else if c.collection == 2
    then codes "MULTISET"
    else if c.collection == 3
    then codes "SEQUENCE"
    else name_in c.type_code type_names
