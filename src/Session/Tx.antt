-- ===== src/Session/Tx.antt =====
-- cubrid/tx.go: isolation level, lock timeout, autocommit, and the end of a transaction.
pub mod Ends
use gocubrid.Prelude.{
  ℕ, ℤ, pos, negsuc, ◌-◌, ◌^◌, ◌/◌, Bool, true, false, ◌&&◌, ◌||◌, List, [], ◌∷◌, ltb, leb, ltb_ℤ,
  ◌==◌, if◌then◌else◌,
}
use gocubrid.Errors.{Error, isolation_range, savepoint_name}
use gocubrid.Exec.{Result, ok, err, Exec, pure, raise, gets, modify, check, ◌>>=◌, ◌>>◌}
use gocubrid.Bytes.{Bytes}
use gocubrid.Wire.Writer.{Writer, ◌▹◌, new_writer, raw_byte, arg_byte}
use gocubrid.Wire.Reader.{Read, int32}
use gocubrid.Protocol.Codes.{Version, at_least}
use gocubrid.Protocol.Codes.Functions
use gocubrid.Protocol.Requests.{set_db_parameter_request, get_db_parameter_request}
use gocubrid.Protocol.Status.{read_status}
use gocubrid.Session.Conn.{Conn, request}

abbrev pub tran_commit : ℕ
tran_commit = 1

abbrev pub tran_rollback : ℕ
tran_rollback = 2

-- `_, err = protocol.ReadStatus(r); return err`
unfoldable pub read_done : Read (Unit {0})
read_done = do read_status; pure tt

-- A request that is answered by a bare status.
unfoldable pub send_for_status : Bytes → Exec Conn (Unit {0})
send_for_status payload = request payload read_done

abbrev pub min_level : Version → ℤ
min_level v = if at_least v 7 then pos 4 else pos 1

unfoldable pub level_in_range : Version → ℤ → Bool
level_in_range v lv = if ltb_ℤ lv (min_level v) || ltb_ℤ (pos 6) lv then false else true

unfoldable pub set_isolation_level : ℤ → Exec Conn (Unit {0})
set_isolation_level lv c =
    if level_in_range c.version lv
    then send_for_status (set_db_parameter_request (pos 1) lv new_writer).buf c
    else (err (isolation_range lv (min_level c.version) (pos 6)), c)

unfoldable pub read_level : Read ℤ
read_level = do read_status; int32

unfoldable pub isolation_level : Exec Conn ℤ
isolation_level = request (get_db_parameter_request (pos 1) new_writer).buf read_level

-- The timeout in nanoseconds as milliseconds, `math.MaxInt32` at most; -1 waits forever.
unfoldable pub lock_millis : ℤ → ℤ
lock_millis (negsuc n) = negsuc 0
lock_millis (pos n) =
    if ltb (n / 1_000_000) (2 ^ 31 - 1) then pos (n / 1_000_000) else pos (2 ^ 31 - 1)

unfoldable pub set_lock_timeout : ℤ → Exec Conn (Unit {0})
set_lock_timeout d =
    send_for_status (set_db_parameter_request (pos 2) (lock_millis d) new_writer).buf

unfoldable pub set_auto_commit : Bool → Exec Conn (Unit {0})
set_auto_commit on = modify (λ c. record c { auto_commit = on })

unfoldable pub end_transaction : ℕ → Exec Conn (Unit {0})
end_transaction kind =
    send_for_status (new_writer ▹ raw_byte Functions.end_transaction ▹ arg_byte kind).buf

unfoldable pub commit : Exec Conn (Unit {0})
commit = end_transaction tran_commit

unfoldable pub rollback : Exec Conn (Unit {0})
rollback = end_transaction tran_rollback

-- `^[A-Za-z_][A-Za-z0-9_]*$`
unfoldable pub is_letter : ℕ → Bool
is_letter b = (leb 65 b && leb b 90) || (leb 97 b && leb b 122) || b == 95

unfoldable pub is_word : ℕ → Bool
is_word b = is_letter b || (leb 48 b && leb b 57)

unfoldable pub all_word : Bytes → Bool
all_word [] = true
all_word (b ∷ bs) = is_word b && all_word bs

unfoldable pub is_identifier : Bytes → Bool
is_identifier [] = false
is_identifier (b ∷ bs) = is_letter b && all_word bs
