-- ===== src/Protocol/Codes.antt =====
-- The constants of version.go, types.go, funccodes.go, dbparam.go, schema.go and frame.go.
-- `Types.varchar` is `TypeVarchar`, `Functions.prepare` is `FnPrepare`.
pub mod Types
pub mod Functions
use gocubrid.Prelude.{ℕ, ℤ, pos, Bool, leb, ◌^◌}

-- Protocol versions.
abbrev pub Version : Type 0
Version = ℕ

unfoldable pub at_least : Version → ℕ → Bool
at_least v n = leb n v

-- Greeting bits.
abbrev pub proto_indicator : ℕ
proto_indicator = 0x40

abbrev pub proto_ver_mask : ℕ
proto_ver_mask = 0x3f

abbrev pub current_protocol_version : Version
current_protocol_version = 12

abbrev pub flag_renewed_error_code : ℕ
flag_renewed_error_code = 0x80

abbrev pub flag_holdable_result : ℕ
flag_holdable_result = 0x40

abbrev pub client_type_jdbc : ℕ
client_type_jdbc = 3

-- `maxPayloadSize`, 256 MiB.
abbrev pub max_payload_size : ℕ
max_payload_size = 2 ^ 28

abbrev pub cas_info_flag_autocommit : ℕ
cas_info_flag_autocommit = 1

-- `DBParamIsolationLevel` and `DBParamLockTimeout`.
abbrev pub db_param_isolation_level : ℤ
db_param_isolation_level = pos 1

abbrev pub db_param_lock_timeout : ℤ
db_param_lock_timeout = pos 2
