-- ===== src/Protocol/Batch.antt =====
-- batch.go: the batch requests, and the response with one outcome for each statement.
pub mod RoundTrip
use gocubrid.Prelude.{
  ℕ, ℤ, pos, ◌*◌, Bool, true, false, ◌||◌, List, [], ◌∷◌, Option, none, some, is_neg, ltb, pos_part,
  if◌then◌else◌,
}
use gocubrid.Errors.{Error, server, bad_batch_count}
use gocubrid.Exec.{pure, raise, gets, each, ◌>>=◌, ◌>>◌}
use gocubrid.Bytes.{Bytes}
use gocubrid.Wire.Writer.{Writer, ◌▹◌, raw_byte, arg_int, arg_byte, arg_string}
use gocubrid.Wire.Reader.{Read, byte, int16, int32, string, remaining}
use gocubrid.Protocol.Codes.{Version, at_least}
use gocubrid.Protocol.Codes.Functions

unfoldable pub auto_commit_byte : Bool → ℕ
auto_commit_byte b = if b then 1 else 0

-- `if ver.AtLeast(ProtoV4) { w.ArgInt(0) }` and the like.
abbrev pub zero_from : ℕ → Version → Writer → Writer
zero_from n ver w = if at_least ver n then arg_int (pos 0) w else w

unfoldable pub execute_batch_prep_request : ℤ → Bool → Version → Writer → Writer
execute_batch_prep_request handle auto_commit ver w =
    w
    ▹ raw_byte Functions.execute_batch_prep
    ▹ arg_int handle
    ▹ zero_from 4 ver
    ▹ arg_byte (auto_commit_byte auto_commit)

abbrev arg_strings : List Bytes → Writer → Writer
arg_strings [] w = w
arg_strings (s ∷ ss) w = arg_strings ss (arg_string s w)

unfoldable pub execute_batch_sql_request : Bool → List Bytes → Version → Writer → Writer
execute_batch_sql_request auto_commit sqls ver w =
    w
    ▹ raw_byte Functions.execute_batch
    ▹ arg_byte (auto_commit_byte auto_commit)
    ▹ zero_from 4 ver
    ▹ arg_strings sqls

-- The outcome of one statement: the rows it affected, or its error.
pub record BatchResult : Type 0 where
  pub affected_rows : ℤ
  pub failure : Option Error

abbrev pub min_batch_result_bytes : ℕ
min_batch_result_bytes = 12

unfoldable pub skip_stmt_type : Bool → Read (Unit {0})
skip_stmt_type with_stmt_type = if with_stmt_type then (do byte; pure tt) else pure tt

-- After the result code: an error's code and message, or eight reserved bytes.
unfoldable pub read_outcome : ℤ → Read BatchResult
read_outcome res =
    if is_neg res
    then (do
      code ← int32
      msg ← string
      pure (record { affected_rows = pos 0; failure = some (server code msg) }))
    else do int32; int16; int16; pure (record { affected_rows = res; failure = none })

unfoldable pub read_batch_result : Bool → Read BatchResult
read_batch_result with_stmt_type = do skip_stmt_type with_stmt_type; res ← int32; read_outcome res

-- `for i := 0; i < n`, then the shard id from V5 on.
unfoldable pub read_batch_results : Version → Bool → ℕ → Read (List BatchResult)
read_batch_results ver with_stmt_type n = do
  out ← each 0 n (λ _. read_batch_result with_stmt_type)
  if at_least ver 5 then (do int32; pure out) else pure out

unfoldable pub parse_batch_response : Version → Bool → Read (List BatchResult)
parse_batch_response ver with_stmt_type = do
  n ← int32
  left ← gets remaining
  if is_neg n || ltb left (pos_part n * min_batch_result_bytes)
      then raise (bad_batch_count n left)
      else read_batch_results ver with_stmt_type (pos_part n)
