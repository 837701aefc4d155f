-- ===== src/Protocol/Requests.antt =====
-- The request builders of dbparam.go, schema.go and lob.go.
pub mod Layout
use gocubrid.Prelude.{ℕ, ℤ, List, Option, none, some}
use gocubrid.Bytes.{Bytes}
use gocubrid.Wire.Writer.{
  Writer, ◌▹◌, raw_byte, arg_int, arg_byte, arg_long, arg_bytes, arg_string, arg_null,
}
use gocubrid.Protocol.Codes.{Version}
use gocubrid.Protocol.Codes.Functions
use gocubrid.Protocol.Batch.{zero_from}
use gocubrid.Protocol.LobHandle.{LobHandle}

unfoldable pub set_db_parameter_request : ℤ → ℤ → Writer → Writer
set_db_parameter_request param value w =
    w ▹ raw_byte Functions.set_db_parameter ▹ arg_int param ▹ arg_int value

unfoldable pub get_db_parameter_request : ℤ → Writer → Writer
get_db_parameter_request param w = w ▹ raw_byte Functions.get_db_parameter ▹ arg_int param

-- A filter of GET_SCHEMA_INFO: a nil pointer is the null argument.
unfoldable pub arg_filter : Option Bytes → Writer → Writer
arg_filter none w = arg_null w
arg_filter (some s) w = arg_string s w

unfoldable pub schema_info_request : ℤ → Option Bytes → Option Bytes → ℕ → Version → Writer → Writer
schema_info_request sch_type arg1 arg2 flag ver w =
    w
    ▹ raw_byte Functions.get_schema_info
    ▹ arg_int sch_type
    ▹ arg_filter arg1
    ▹ arg_filter arg2
    ▹ arg_byte flag
    ▹ zero_from 5 ver

unfoldable pub new_lob_request : ℤ → Writer → Writer
new_lob_request typ w = w ▹ raw_byte Functions.new_lob ▹ arg_int typ

unfoldable pub write_lob_request : LobHandle → ℤ → Bytes → Writer → Writer
write_lob_request h offset data_ w =
    w ▹ raw_byte Functions.write_lob ▹ arg_bytes h.raw ▹ arg_long offset ▹ arg_bytes data_

unfoldable pub read_lob_request : LobHandle → ℤ → ℤ → Writer → Writer
read_lob_request h offset n w =
    w ▹ raw_byte Functions.read_lob ▹ arg_bytes h.raw ▹ arg_long offset ▹ arg_int n
