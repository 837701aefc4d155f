-- ===== src/Errors.antt =====
-- The errors of cubrid/internal/protocol/errors.go, cubrid/errors.go and of every `fmt.Errorf` of
-- the driver: one constructor for each message, with the values that the message prints.
use gocubrid.Prelude.{ℕ, ℤ, Bool, true, false, List}

-- The fields of the auth block, as its messages name them.
pub data Field : Type 0 where
  dbname user password url : Field

-- The families of schema rows, as their messages name them.
pub data Family : Type 0 where
  class attribute constraint primary_key foreign_key : Family

pub data Error : Type 0 where
  -- `ErrShortBuffer`, `*Error{Code, Message}`, `ErrBadConn`.
  short_buffer : Error
  server : ℤ → List ℕ → Error
  bad_conn : Error
  -- `io.EOF`, `io.ErrUnexpectedEOF`, and what the socket or the context reports.
  eof unexpected_eof : Error
  socket context_done : ℕ → Error
  write_failed read_failed : Error → Error
  -- cubrid/internal/protocol
  payload_too_long : ℕ → Error
  broker_info_size : ℕ → Error
  field_too_long : Field → ℕ → Error
  resultset_unsupported nested_too_deep unsupported_param nested_bind all_null_bind : Error
  type_unsupported : ℕ → Error
  bad_element_count bad_batch_count : ℤ → ℕ → Error
  collection_element : Error → Error
  mixed_elements : ℕ → ℕ → Error
  lob_handle_size : ℕ → Error
  locator_length : ℤ → ℕ → Error
  -- cubrid
  isolation_range : ℤ → ℤ → ℤ → Error
  savepoint_name : List ℕ → Error
  stmt_closed rows_closed inline_columns lob_read_only : Error
  wrong_args : ℕ → ℕ → Error
  bind_failed : ℕ → Error → Error
  column_failed : List ℕ → Error → Error
  prepare_column schema_column : ℕ → Error → Error
  bad_param_count bad_column_count bad_schema_columns : ℤ → ℕ → Error
  row_shape : Family → ℕ → ℕ → Error
  bad_schema_value : Family → Error
  not_a_call : ℕ → Error
  out_index : ℤ → ℕ → Error
  negative_offset : ℤ → Error
  read_lob_count write_lob_count : ℤ → ℕ → Error
  batch_without_params : ℕ → Error
  batch_row_args : ℕ → ℕ → ℕ → Error
  batch_bind : ℕ → ℕ → Error → Error
  -- connecting, in cubrid/conn.go
  dial_failed host_failed : List ℕ → Error → Error
  greeting_failed greeting_reply_failed redirect_failed : Error → Error
  tls_failed auth_failed auth_reply_failed : Error → Error
  -- cubrid/config.go
  invalid_dsn missing_host : Error
  bad_scheme bad_database bad_port bad_fetch_size bad_timeout bad_ssl bad_ssl_verify :
      List ℕ → Error
  unknown_parameter : List ℕ → Error
  alt_host_form alt_host_empty alt_host_bracket alt_host_port : List ℕ → Error
  -- the database/sql adapter
  driver_bad_conn read_only_tx no_last_insert_id driver_skip : Error
  unsupported_isolation : ℕ → Error
  named_parameter : List ℕ → Error
  ordinal_range : ℤ → ℕ → Error
  lob_too_big : ℤ → Error
  -- cubrid/numeric.go
  numeric_special : ℕ → Error
  numeric_null numeric_type : Error
  bad_numeric : List ℕ → Error
  -- A panic of Go's runtime.
  nil_dereference : Error
  element_failed : ℕ → Error → Error

-- `errors.Is(err, io.EOF)`: through every `%w`.
unfoldable pub is_end : Error → Bool
is_end eof = true
is_end (write_failed e) = is_end e
is_end (read_failed e) = is_end e
is_end (collection_element e) = is_end e
is_end (bind_failed i e) = is_end e
is_end (column_failed name e) = is_end e
is_end (prepare_column i e) = is_end e
is_end (schema_column i e) = is_end e
is_end (batch_bind i j e) = is_end e
is_end (dial_failed addr e) = is_end e
is_end (host_failed addr e) = is_end e
is_end (greeting_failed e) = is_end e
is_end (greeting_reply_failed e) = is_end e
is_end (redirect_failed e) = is_end e
is_end (tls_failed e) = is_end e
is_end (auth_failed e) = is_end e
is_end (auth_reply_failed e) = is_end e
is_end (element_failed i e) = is_end e
is_end e = false
