-- ===== src/Adapter.antt =====
-- conn.go, tx.go, stmt.go and value.go of the root package: the database/sql adapter.
pub mod Pool
pub mod Binding
pub mod Values
pub mod Statements
pub mod Driver
pub mod Rows
use gocubrid.Prelude.{
  ℕ, zero, suc, ℤ, pos, ◌+◌, ◌-◌, Bool, true, false, ◌||◌, not, List, [], ◌∷◌, length, set,
  replicate, Option, none, some, ltb_ℤ, pos_part, ◌==◌, if◌then◌else◌,
}
use gocubrid.Errors.{
  Error, bad_conn, driver_bad_conn, read_only_tx, unsupported_isolation, named_parameter,
  ordinal_range, write_failed, read_failed, collection_element, bind_failed, column_failed,
  prepare_column, schema_column, batch_bind, dial_failed, host_failed, greeting_failed,
  greeting_reply_failed, redirect_failed, tls_failed, auth_failed, auth_reply_failed,
  element_failed,
}
use gocubrid.Exec.{
  Result, ok, err, Exec, pure, raise, lift, wrap, attempt, modify, continue, ◌>>=◌, ◌>>◌,
}
use gocubrid.Bytes.{Bytes}
use gocubrid.Value.{Value}
use gocubrid.Session.Conn.{Conn, valid, ping, close}
use gocubrid.Session.Tx.{set_isolation_level, set_auto_commit, commit, rollback}

-- `errors.Is(err, cubrid.ErrBadConn)`: through every `%w`.
unfoldable pub is_bad_conn : Error → Bool
is_bad_conn bad_conn = true
is_bad_conn (write_failed e) = is_bad_conn e
is_bad_conn (read_failed e) = is_bad_conn e
is_bad_conn (collection_element e) = is_bad_conn e
is_bad_conn (bind_failed i e) = is_bad_conn e
is_bad_conn (column_failed name e) = is_bad_conn e
is_bad_conn (prepare_column i e) = is_bad_conn e
is_bad_conn (schema_column i e) = is_bad_conn e
is_bad_conn (batch_bind i j e) = is_bad_conn e
is_bad_conn (element_failed i e) = is_bad_conn e
is_bad_conn (dial_failed addr e) = is_bad_conn e
is_bad_conn (host_failed addr e) = is_bad_conn e
is_bad_conn (greeting_failed e) = is_bad_conn e
is_bad_conn (greeting_reply_failed e) = is_bad_conn e
is_bad_conn (redirect_failed e) = is_bad_conn e
is_bad_conn (tls_failed e) = is_bad_conn e
is_bad_conn (auth_failed e) = is_bad_conn e
is_bad_conn (auth_reply_failed e) = is_bad_conn e
is_bad_conn e = false

unfoldable pub map_err : Error → Error
map_err e = if is_bad_conn e then driver_bad_conn else e

-- `sql.IsolationLevel`, in its order.
pub data Level : Type 0 where
  by_default read_uncommitted read_committed write_committed repeatable_read snapshot serializable
        linearizable :
      Level

-- 0 leaves the session's level.
unfoldable pub native_isolation : Level → Option ℕ
native_isolation by_default = some 0
native_isolation read_committed = some 4
native_isolation repeatable_read = some 5
native_isolation serializable = some 6
native_isolation lv = none

abbrev level_number : Level → ℕ
level_number by_default = 0
level_number read_uncommitted = 1
level_number read_committed = 2
level_number write_committed = 3
level_number repeatable_read = 4
level_number snapshot = 5
level_number serializable = 6
level_number linearizable = 7

unfoldable pub set_level : ℕ → Exec Conn (Unit {0})
set_level zero = pure tt
set_level (suc n) = wrap map_err (set_isolation_level (pos (suc n)))

unfoldable pub begin_at : Level → Option ℕ → Exec Conn (Unit {0})
begin_at lv none = raise (unsupported_isolation (level_number lv))
begin_at lv (some n) = do set_level n; set_auto_commit false

-- `BeginTx`
unfoldable pub begin_tx : Bool → Level → Exec Conn (Unit {0})
begin_tx read_only lv c =
    if read_only then (err read_only_tx, c) else begin_at lv (native_isolation lv) c

-- `Commit` and `Rollback` of a transaction: autocommit is on after them, whatever the broker said.
unfoldable pub tx_commit : Exec Conn (Unit {0})
tx_commit c = let out = wrap map_err commit c in (out.0, record out.1 { auto_commit = true })

unfoldable pub tx_rollback : Exec Conn (Unit {0})
tx_rollback c = let out = wrap map_err rollback c in (out.0, record out.1 { auto_commit = true })

unfoldable pub ping_context : Exec Conn (Unit {0})
ping_context = wrap map_err ping

-- What `ResetSession` does after the rollback.
unfoldable pub after_rollback : Result (Unit {0}) × Conn → Result (Unit {0}) × Conn
after_rollback (ok u, c) = (ok tt, record c { auto_commit = true })
after_rollback (err e, c) = (err driver_bad_conn, c)

unfoldable pub reset_session : Exec Conn (Unit {0})
reset_session c =
    if not (valid c)
    then (err driver_bad_conn, c)
    else if not c.auto_commit
    then after_rollback (rollback c)
    else (ok tt, c)

-- `driver.NamedValue`
pub record NamedValue : Type 0 where
  pub name : Bytes
  pub ordinal : ℤ
  pub value : Value

unfoldable pub is_named : NamedValue → Bool
is_named a = not (length a.name == 0)

-- `valuesToNamed`, from ordinal `i` on.
unfoldable pub values_to_named : ℕ → List Value → List NamedValue
values_to_named i [] = []
values_to_named i (v ∷ vs) =
    record { name = []; ordinal = pos (suc i); value = v } ∷ values_to_named (i + 1) vs

-- The loop of `bindArgs`, over the slots filled so far.
unfoldable pub bind_loop : ℕ → List NamedValue → List Value → Result (List Value)
bind_loop n [] out = ok out
bind_loop n (a ∷ as') out =
    let rest = bind_loop n as' (set out (pos_part a.ordinal - 1) a.value) in
    if is_named a
    then err (named_parameter a.name)
    else if ltb_ℤ a.ordinal (pos 1) || ltb_ℤ (pos n) a.ordinal
    then err (ordinal_range a.ordinal n)
    else rest

unfoldable pub bind_args : List NamedValue → Result (List Value)
bind_args args = bind_loop (length args) args (replicate (length args) Value.null)
