-- ===== src/Protocol/Codec/Kind.antt =====
-- The cases of the `switch typ` in `decodeValue`.
use gocubrid.Prelude.{ℕ, ◌||◌, ◌==◌, if◌then◌else◌}
use gocubrid.Protocol.Codes.Types

pub data Kind : Type 0 where
  text json int short bigint float double bits datetime zoned collection resultset unknown : Kind

unfoldable pub kind_of : ℕ → Kind
kind_of t =
    if t == Types.char
      || t == Types.varchar
      || t == Types.nchar
      || t == Types.var_nchar
      || t == Types.enum
      || t == Types.numeric
    then text
    else if t == Types.json
    then json
    else if t == Types.int || t == Types.u_int
    then int
    else if t == Types.short || t == Types.u_short
    then short
    else if t == Types.bigint || t == Types.u_bigint
    then bigint
    else if t == Types.float
    then float
    else if t == Types.double || t == Types.monetary
    then double
    else if t == Types.bit || t == Types.varbit
    then bits
    else if t == Types.date || t == Types.time || t == Types.timestamp || t == Types.datetime
    then datetime
    else if t == Types.timestamp_tz
        || t == Types.timestamp_ltz
        || t == Types.datetime_tz
        || t == Types.datetime_ltz
    then zoned
    else if t == Types.set || t == Types.multiset || t == Types.sequence
    then collection
    else if t == Types.resultset
    then resultset
    else unknown
