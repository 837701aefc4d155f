-- ===== src/Protocol/Codes/Functions.antt =====
-- The function codes of funccodes.go.
use gocubrid.Prelude.{ℕ}

abbrev pub end_transaction : ℕ
end_transaction = 1

abbrev pub prepare : ℕ
prepare = 2

abbrev pub execute : ℕ
execute = 3

abbrev pub get_db_parameter : ℕ
get_db_parameter = 4

abbrev pub set_db_parameter : ℕ
set_db_parameter = 5

abbrev pub close_statement : ℕ
close_statement = 6

abbrev pub cursor : ℕ
cursor = 7

abbrev pub fetch : ℕ
fetch = 8

abbrev pub get_schema_info : ℕ
get_schema_info = 9

abbrev pub get_db_version : ℕ
get_db_version = 15

abbrev pub next_result : ℕ
next_result = 19

abbrev pub execute_batch : ℕ
execute_batch = 20

abbrev pub execute_batch_prep : ℕ
execute_batch_prep = 21

abbrev pub savepoint : ℕ
savepoint = 26

abbrev pub parameter_info : ℕ
parameter_info = 27

abbrev pub con_close : ℕ
con_close = 31

abbrev pub check_cas : ℕ
check_cas = 32

abbrev pub make_out_result_set : ℕ
make_out_result_set = 33

abbrev pub get_generated_keys : ℕ
get_generated_keys = 34

abbrev pub new_lob : ℕ
new_lob = 35

abbrev pub write_lob : ℕ
write_lob = 36

abbrev pub read_lob : ℕ
read_lob = 37

abbrev pub end_session : ℕ
end_session = 38

abbrev pub prepare_and_execute : ℕ
prepare_and_execute = 41

abbrev pub cursor_close : ℕ
cursor_close = 42
